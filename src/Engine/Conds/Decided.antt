-- ===== src/Engine/Conds/Decided.antt =====
-- htaccess_match_conditions ends.
use ngx_htaccess.Common.{
  Bool, true, false, List, [], ◌∷◌, none, Bytes, Outcome, ok, error, fault, out_of_fuel, ◌>>=◌,
  IsDone,
}
use ngx_htaccess.Directives.{CondTest, RewriteCond}
use ngx_htaccess.Engine.Conds.{
  Context, Code, is_ok, test_fspath, test_by, test_cond, go_on, match_conditions,
}
use ngx_htaccess.Engine.Expand.Total.{expand-IsDone}
use ngx_htaccess.Engine.Expand.{expand}

-- The conditions give a Boolean, or a fault.
abbrev pub IsDecided {ℓ} : {A : Type ℓ} → Outcome A → Type 0
IsDecided (ok a) = Unit
IsDecided fault = Unit
IsDecided _ = ⊥

test_cond-IsDecided : (cx : Context) (c : RewriteCond) → IsDecided (test_cond cx c)
unfolding test_cond
test_cond-IsDecided cx c = by c.test
  where
    fspath : (o : Outcome Bytes) → IsDone o → IsDecided (test_fspath cx c.op o)
    fspath (ok e) d = tt
    fspath error d = tt
    fspath fault d = tt
    fspath out_of_fuel d = d

    by : (t : CondTest) → IsDecided (test_by cx t c)
    by CondTest.filename = tt
    by CondTest.uri = tt
    by CondTest.query_string = tt
    by CondTest.http = tt
    by CondTest.env = tt
    by CondTest.fspath =
        fspath (expand cx.ngx cx.request cx.state c.name none)
          (expand-IsDone cx.ngx cx.request cx.state c.name none)
    by CondTest.other = tt

pub match_conditions-IsDecided :
    (cx : Context) (l : List RewriteCond) → IsDecided (match_conditions cx l)
unfolding match_conditions
match_conditions-IsDecided cx [] = tt
match_conditions-IsDecided cx (c ∷ l) =
    round (test_cond cx c) (test_cond-IsDecided cx c) (match_conditions-IsDecided cx l)
  where
    either : (a b : Bool) (rest : Outcome Bool) → IsDecided rest → IsDecided (go_on cx a b rest)
    either true true rest h = tt
    either true false rest h = h
    either false true rest h = h
    either false false rest h = tt

    round :
        (o : Outcome Code)
        → IsDecided o
        → IsDecided (match_conditions cx l)
        → IsDecided (o >>= λ rc. go_on cx c.or_next (is_ok rc) (match_conditions cx l))
    round (ok rc) d h = either c.or_next (is_ok rc) (match_conditions cx l) h
    round error d h = d
    round fault d h = tt
    round out_of_fuel d h = d
