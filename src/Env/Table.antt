-- ===== src/Env/Table.antt =====
-- The environment table keeps its bounds under every request.
use luminary.Base.{
  ℕ, zero, suc, ◌-◌, ◌≤◌, ◌≡◌, refl, Option, none, some, List, [], ◌∷◌, ◌++◌, arith, length,
  length-append, length-take, take, leb, ◌==◌, if◌then◌else◌, Bool-cases, inl, inr,
}
use luminary.Env.{
  Environ, EnvOp, Reply, failed, done, task_environ_max, equals, environ_find, set_entry,
  remove_entry, has_equals, new_entry, env_set, env_unset, env_control_op,
}

-- Every entry leaves room for its NUL.
unfoldable pub EntriesFit : Environ → Type 0
EntriesFit [] = Unit
EntriesFit (e ∷ es) = (length e ≤ 127) × EntriesFit es

-- At most 32 entries, each of at most 127 bytes.
pub record IsValid (environ : Environ) : Type 0 where
  pub count : length environ ≤ 32
  pub fit : EntriesFit environ

new_entry-length : (name val : List ℕ) → length (new_entry name val) ≤ 127
unfolding new_entry
new_entry-length name val =
    let head = take 126 name ++ (equals ∷ []) in
    omega (
      arith,
      length-append head (take (127 - length head) val),
      length-append (take 126 name) (equals ∷ []),
      length-take 126 name,
      length-take (127 - length head) val,
    )

length-set_entry :
    (environ : Environ) (i : ℕ) (e : List ℕ) → length (set_entry environ i e) ≡ length environ
unfolding set_entry
length-set_entry [] i e = refl
length-set_entry (x ∷ xs) zero e = refl
length-set_entry (x ∷ xs) (suc i) e = omega (arith, length-set_entry xs i e)

set_entry-EntriesFit :
    (environ : Environ) (i : ℕ) (e : List ℕ)
    → EntriesFit environ
    → length e ≤ 127
    → EntriesFit (set_entry environ i e)
unfolding set_entry EntriesFit
set_entry-EntriesFit [] i e fit h = tt
set_entry-EntriesFit (x ∷ xs) zero e (_, rest) h = (h, rest)
set_entry-EntriesFit (x ∷ xs) (suc i) e (first, rest) h =
    (first, set_entry-EntriesFit xs i e rest h)

append-EntriesFit :
    (environ : Environ) (e : List ℕ)
    → EntriesFit environ
    → length e ≤ 127
    → EntriesFit (environ ++ (e ∷ []))
unfolding EntriesFit
append-EntriesFit [] e fit h = (h, tt)
append-EntriesFit (x ∷ xs) e (first, rest) h = (first, append-EntriesFit xs e rest h)

length-remove : (environ : Environ) (i : ℕ) → length (remove_entry environ i) ≤ length environ
unfolding remove_entry
length-remove [] i = omega arith
length-remove (x ∷ xs) zero = omega arith
length-remove (x ∷ xs) (suc i) = omega (arith, length-remove xs i)

remove_entry-IsValid :
    (environ : Environ) (i : ℕ) → IsValid environ → IsValid (remove_entry environ i)
unfolding remove_entry EntriesFit
remove_entry-IsValid [] i v = v
remove_entry-IsValid (x ∷ xs) zero v = record { count = omega (arith, v.count); fit = v.fit.1 }
remove_entry-IsValid (x ∷ xs) (suc i) v =
    let rest =
      remove_entry-IsValid xs i (record { count = omega (arith, v.count); fit = v.fit.1 }) in
    record {
      count = omega (arith, rest.count, length-remove xs i, v.count);
      fit = (v.fit.0, rest.fit);
    }

set_by :
    (environ : Environ) (op : EnvOp) (found : Option ℕ)
    → IsValid environ
    → IsValid
        (elim found as (λ x. Reply × Environ) [
          | some i ↦
              if op.overwrite == 0
              then (done, environ)
              else (done, set_entry environ i (new_entry op.name op.val))
          | none ↦
              if leb task_environ_max (length environ)
              then (failed, environ)
              else (done, environ ++ (new_entry op.name op.val ∷ []))
        ]).1
set_by environ op (some i) v = elim (Bool-cases (op.overwrite == 0)) [
  | inl keep ↦ rw keep v
  | inr write ↦ rw write (record {
    count = omega (arith, length-set_entry environ i (new_entry op.name op.val), v.count);
    fit =
        set_entry-EntriesFit environ i (new_entry op.name op.val) v.fit
          (new_entry-length op.name op.val);
  })
]
set_by environ op none v = elim (Bool-cases (leb task_environ_max (length environ))) [
  | inl full ↦ rw full v
  | inr room ↦ rw room (record {
    count = ground (arith, length-append environ (new_entry op.name op.val ∷ []));
    fit =
        append-EntriesFit environ (new_entry op.name op.val) v.fit
          (new_entry-length op.name op.val);
  })
]

unset_by :
    (environ : Environ) (found : Option ℕ)
    → IsValid environ
    → IsValid
        (elim found as (λ x. Reply × Environ) [
          | none ↦ (done, environ)
          | some i ↦ (done, remove_entry environ i)
        ]).1
unset_by environ none v = v
unset_by environ (some i) v = remove_entry-IsValid environ i v

env_set-IsValid :
    (environ : Environ) (op : EnvOp) → IsValid environ → IsValid (env_set environ op).1
unfolding env_set
env_set-IsValid environ op v = elim (Bool-cases (has_equals op.name)) [
  | inl bad ↦ rw bad v
  | inr good ↦ rw good (set_by environ op (environ_find environ op.name) v)
]

env_unset-IsValid :
    (environ : Environ) (op : EnvOp) → IsValid environ → IsValid (env_unset environ op).1
unfolding env_unset
env_unset-IsValid environ op v = unset_by environ (environ_find environ op.name) v

-- Every request, of whatever number, argument and address, keeps the table within 32 entries of at
-- most 127 bytes each.
env_control_op-IsValid :
    (request addr : ℕ) (op : EnvOp) (environ : Environ)
    → IsValid environ
    → IsValid (env_control_op request addr op environ).1
unfolding env_control_op
env_control_op-IsValid request addr op environ v =
    ground (arith, env_set-IsValid environ op v, env_unset-IsValid environ op v)
