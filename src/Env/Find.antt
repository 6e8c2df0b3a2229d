-- ===== src/Env/Find.antt =====
-- How an entry is found, and the entry that ENV_SET writes.
use luminary.Base.{
  ℕ, zero, suc, ◌-◌, ◌≤◌, ◌≡◌, refl, ap, Bool, true, false, Option, none, some, List, [], ◌∷◌, ◌++◌,
  append_assoc, arith, length, length-append, take, if◌then◌else◌,
}
use luminary.Env.{
  Environ, equals, entry_fits, find_from, after_equals, entry, set_entry, has_equals, new_entry,
}

pub take-all : (n : ℕ) (xs : List ℕ) → length xs ≤ n → take n xs ≡ xs
take-all n [] h = take-empty n
  where
    take-empty : (n : ℕ) → take {A = ℕ} n [] ≡ []
    take-empty zero = refl
    take-empty (suc n) = refl
take-all zero (x ∷ xs) h = absurd (omega arith)
take-all (suc n) (x ∷ xs) h = ap (◌∷◌ x) (take-all n xs (omega arith))

-- An entry is found by the length of its key alone.
fits-key :
    (key rest : List ℕ) (n : ℕ)
    → has_equals key ≡ false
    → length key ≡ n
    → entry_fits n (key ++ (equals ∷ rest)) ≡ true
unfolding entry_fits has_equals
fits-key [] rest zero no_equals e = refl
fits-key [] rest (suc n) no_equals e = absurd (omega arith)
fits-key (c ∷ cs) rest zero no_equals e = absurd (omega arith)
fits-key (c ∷ cs) rest (suc n) no_equals e = ground (arith, fits-key cs rest n)

after-key :
    (key rest : List ℕ) → has_equals key ≡ false → after_equals (key ++ (equals ∷ rest)) ≡ rest
unfolding after_equals has_equals
after-key [] rest no_equals = refl
after-key (c ∷ cs) rest no_equals = ground (arith, after-key cs rest)

-- The entry of a key of at most 126 bytes.
new_entry-short :
    (key val : List ℕ)
    → length key ≤ 126
    → new_entry key val ≡ key ++ (equals ∷ take (126 - length key) val)
unfolding new_entry
new_entry-short key val short =
    let room : 127 - length (key ++ (equals ∷ [])) ≡ 126 - length key =
      omega (arith, length-append key (equals ∷ [])) in
    rw (take-all 126 key short, room) (append_assoc key (equals ∷ []) (take (126 - length key) val))

pub new_entry-fits :
    (key val : List ℕ) (n : ℕ)
    → has_equals key ≡ false
    → length key ≤ 126
    → length key ≡ n
    → entry_fits n (new_entry key val) ≡ true
new_entry-fits key val n no_equals short e =
    rw (new_entry-short key val short) (fits-key key (take (126 - length key) val) n no_equals e)

pub new_entry-value :
    (key val : List ℕ)
    → has_equals key ≡ false
    → length key ≤ 126
    → after_equals (new_entry key val) ≡ take (126 - length key) val
new_entry-value key val no_equals short =
    rw (new_entry-short key val short) (after-key key (take (126 - length key) val) no_equals)

abbrev searched : Bool → Option ℕ → Option ℕ
searched fits later = if fits then some 0 else elim later [ none ↦ none | some i ↦ some (suc i) ]

found_later :
    (fits : Bool) (later : Option ℕ) (i : ℕ)
    → searched fits later ≡ some (suc i)
    → (fits ≡ false) × (later ≡ some i)
found_later true later i e = absurd (ground (arith, e))
found_later false none i e = absurd (ground (arith, e))
found_later false (some j) i e = (refl, ground (arith, e))

found_nowhere :
    (fits : Bool) (later : Option ℕ) → searched fits later ≡ none → (fits ≡ false) × (later ≡ none)
found_nowhere true later e = absurd (ground (arith, e))
found_nowhere false none e = (refl, refl)
found_nowhere false (some j) e = absurd (ground (arith, e))

-- Where a search comes to an end.
pub record Holds (n : ℕ) (environ : Environ) (i : ℕ) (e : List ℕ) : Type 0 where
  pub found : find_from n environ ≡ some i
  pub here : entry environ i ≡ e

-- Writing over the entry found.
pub set-Holds :
    (n : ℕ) (environ : Environ) (i : ℕ) (e : List ℕ)
    → find_from n environ ≡ some i
    → entry_fits n e ≡ true
    → Holds n (set_entry environ i e) i e
unfolding find_from entry set_entry
set-Holds n [] i e found fits = absurd (cc)
set-Holds n (x ∷ xs) zero e found fits = record { found = rw fits refl; here = refl }
set-Holds n (x ∷ xs) (suc i) e found fits =
    let (not_first, later) = found_later (entry_fits n x) (find_from n xs) i found in
    let rest = set-Holds n xs i e later fits in
    record { found = rw (find_from, not_first, rest.found) refl; here = rest.here }

-- Appending one when there is none.
pub append-Holds :
    (n : ℕ) (environ : Environ) (e : List ℕ)
    → find_from n environ ≡ none
    → entry_fits n e ≡ true
    → Holds n (environ ++ (e ∷ [])) (length environ) e
unfolding find_from entry
append-Holds n [] e found fits = record { found = rw fits refl; here = refl }
append-Holds n (x ∷ xs) e found fits =
    let (not_first, later) = found_nowhere (entry_fits n x) (find_from n xs) found in
    let rest = append-Holds n xs e later fits in
    record { found = rw (find_from, not_first, rest.found) refl; here = rest.here }
