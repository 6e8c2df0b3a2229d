-- ===== src/Env/Control.antt =====
-- The requests of the environment device.
use luminary.Base.{
  ℕ, ◌-◌, ◌≤◌, ◌<◌, ◌≡◌, ◌≢◌, refl, ap, sym, subst, ◌∙◌, false, Option, none, some, List, [], ◌∷◌,
  ◌++◌, arith, length, length-take, take, leb, ◌==◌,
}
use luminary.Env.{
  Environ, EnvOp, done, value, copied, environ_find, find_from, after_equals, set_entry, has_equals,
  new_entry, env_get, env_set,
}
use luminary.Env.Find.{Holds, set-Holds, append-Holds, new_entry-fits, new_entry-value, take-all}

-- What ENV_GET returns for the entry that its search finds.
get-Holds :
    (environ : Environ) (i : ℕ) (e : List ℕ) (op : EnvOp)
    → Holds (length op.name) environ i e
    → env_get environ op ≡ value (copied (after_equals e))
unfolding env_get environ_find
get-Holds environ i e op holds = rw (env_get, holds.found, holds.here) refl

copied-value : (room : ℕ) (val : List ℕ) → copied (take (126 - room) val) ≡ take (126 - room) val
copied-value room val =
    take-all 127 (take (126 - room) val) (omega (arith, length-take (126 - room) val))

-- ENV_SET, by what its search comes to.
set_lem :
    (environ : Environ) (op : EnvOp) (found : Option ℕ)
    → has_equals op.name ≡ false
    → op.overwrite ≢ 0
    → length environ < 32
    → find_from (length op.name) environ ≡ found
    → env_set environ op ≡ (elim found [
      | some i ↦ (done, set_entry environ i (new_entry op.name op.val))
      | none ↦ (done, environ ++ (new_entry op.name op.val ∷ []))
    ])
unfolding env_set environ_find
set_lem environ op none no_equals over room e =
    let space : leb 32 (length environ) ≡ false = ground arith in rw (no_equals, e, space) refl
set_lem environ op (some i) no_equals over room e =
    let write : (op.overwrite == 0) ≡ false = ground arith in rw (no_equals, e, write) refl

-- The place of the new entry.
set-found :
    (environ : Environ) (op : EnvOp) (found : Option ℕ)
    → has_equals op.name ≡ false
    → op.overwrite ≢ 0
    → length op.name ≤ 126
    → length environ < 32
    → find_from (length op.name) environ ≡ found
    → ((env_set environ op).0 ≡ done)
      × ((i : ℕ) × Holds (length op.name) (env_set environ op).1 i (new_entry op.name op.val))
set-found environ op none no_equals over short room e =
    let fits = new_entry-fits op.name op.val (length op.name) no_equals short refl in
    rw (set_lem environ op none no_equals over room e) (
      refl,
      (length environ, append-Holds (length op.name) environ (new_entry op.name op.val) e fits),
    )
set-found environ op (some i) no_equals over short room e =
    let fits = new_entry-fits op.name op.val (length op.name) no_equals short refl in
    rw (set_lem environ op (some i) no_equals over room e)
      (refl, (i, set-Holds (length op.name) environ i (new_entry op.name op.val) e fits))

-- After ENV_SET with the overwrite flag, of a name without `=` into a table with room, ENV_GET
-- returns the value, cut to what is left of 126 bytes after the name. It returns it for every name
-- of the same length, because the search compares no byte of the name.
pub get-set :
    (environ : Environ) (op asked : EnvOp)
    → has_equals op.name ≡ false
    → length op.name ≤ 63
    → op.overwrite ≢ 0
    → length environ < 32
    → length asked.name ≡ length op.name
    → let (reply, environ') = env_set environ op in
      (reply ≡ done) × (env_get environ' asked ≡ value (take (126 - length op.name) op.val))
get-set environ op asked no_equals short over room same =
    let (reply, (i, holds)) =
      set-found environ op (find_from (length op.name) environ) no_equals over (omega arith) room
        refl in
    let there =
      subst (λ n. Holds n (env_set environ op).1 i (new_entry op.name op.val)) (sym same) holds in
    (
      reply,
      get-Holds (env_set environ op).1 i (new_entry op.name op.val) asked there
          ∙ ap (λ v. value (copied v)) (new_entry-value op.name op.val no_equals (omega arith))
          ∙ ap value (copied-value (length op.name) op.val),
    )
