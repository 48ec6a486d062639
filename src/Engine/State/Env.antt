-- ===== src/Engine/State/Env.antt =====
-- What a variable's value is after it was set.
use ngx_htaccess.Common.{
  ◌≡◌, refl, inl, inr, true, List, [], ◌∷◌, ◌++◌, Option, none, some, Bool-cases, if◌then◌else◌,
  Bytes, length, strncmp_eq, arith,
}
use ngx_htaccess.Engine.State.{EnvVar, RequestState, is_named, find_var, env_get, env_set}

strncmp_eq_self : (a : Bytes) → strncmp_eq a a (length a) ≡ true
unfolding strncmp_eq
strncmp_eq_self [] = refl
strncmp_eq_self (x ∷ a) = ground (arith, strncmp_eq_self a)

abbrev pub or_else : Option Bytes → Option Bytes → Option Bytes
or_else (some v) w = some v
or_else none w = w

find_var-append :
    (l : List EnvVar) (v : EnvVar) (name : Bytes)
    → find_var (l ++ (v ∷ [])) name
      ≡ or_else (find_var l name) (if is_named v name then some v.value else none)
unfolding find_var
find_var-append [] v name = refl
find_var-append (u ∷ l) v name = elim (Bool-cases (is_named u name)) [
  | inl here ↦ rw here refl
  | inr other ↦ rw (other, find_var-append l v name) refl
]

is_named_self : (name value : Bytes) → is_named (record { name = name; value = value }) name ≡ true
is_named_self name value = ground (arith, strncmp_eq_self name)

-- A variable that is set has the value that it had before, or the new one where it had none: the
-- first value stays.
pub env_get-env_set :
    (state : RequestState) (name value : Bytes)
    → env_get (env_set state name value) name ≡ or_else (env_get state name) (some value)
unfolding env_get env_set find_var
env_get-env_set state name value =
    rw
      (
        find_var-append state.env (record { name = name; value = value }) name,
        is_named_self name value,
      )
      refl
