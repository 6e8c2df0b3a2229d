-- ===== src/Env/Tests.antt =====
-- The environment device at concrete states: the witnesses.
use luminary.Base.{◌≡◌, refl, [], ◌∷◌, arith, false}
use luminary.Base.Int.{pos}
use luminary.Env.{Environ, EnvOp, done, value, env_get, env_set, has_equals}
use luminary.Env.Table.{IsValid, EntriesFit}
use luminary.Env.Control.{get-set}

-- "AB=1"
abbrev environ : Environ
environ = (65 ∷ 66 ∷ 61 ∷ 49 ∷ []) ∷ []

-- Set "CD" to "2", and ask for "AB".
abbrev set_cd : EnvOp
set_cd = record { index = pos 0; overwrite = 1; name = 67 ∷ 68 ∷ []; val = 50 ∷ [] }

abbrev get_ab : EnvOp
get_ab = record { index = pos 0; overwrite = 0; name = 65 ∷ 66 ∷ []; val = [] }

no_equals : has_equals (67 ∷ 68 ∷ []) ≡ false
unfolding has_equals
no_equals = refl

get-set_example :
    let (reply, environ') = env_set environ set_cd in
    (reply ≡ done) × (env_get environ' get_ab ≡ value (50 ∷ []))
get-set_example =
    get-set environ set_cd get_ab no_equals (omega arith) (omega arith) (omega arith) refl

environ-IsValid : IsValid environ
unfolding EntriesFit
environ-IsValid = record { count = omega arith; fit = (omega arith, tt) }
