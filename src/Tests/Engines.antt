-- ===== src/Tests/Engines.antt =====
-- The engines at concrete requests.
use ngx_htaccess.Common.{
  not, All, ◌≡◌, refl, ◌⊎◌, ◌↔◌, ◌≤◌, arith, true, false, List, [], ◌∷◌, ◌++◌, none, some, Bytes,
  codes, length, ok, error, fault,
}
use ngx_htaccess.Directives.{
  Directive, zero_rule, RewriteCond, CondOp, CondTest, zero_cond, DirectiveId, AliasRedirect,
  zero_directive, MergedCtx,
}
use ngx_htaccess.Engine.Alias.First.{all_directives, first_redirect, apply_alias-first_redirect}
use ngx_htaccess.Engine.Alias.Prefix.{IsBoundary, match_path_iff}
use ngx_htaccess.Engine.Alias.{redirected, match_path, alias_result, apply_alias}
use ngx_htaccess.Engine.Conds.Files.{holds, is_ok-file_test}
use ngx_htaccess.Engine.Conds.Order.{GoesOn, IsTaken, match_conditions_iff}
use ngx_htaccess.Engine.Conds.{Context, is_ok, file_test, match_conditions}
use ngx_htaccess.System.{unopened}
use ngx_htaccess.Engine.Rewrite.{apply_rewrite}
use ngx_htaccess.Engine.Uris.{Http, apply_target_uri, relative_uri}
use ngx_htaccess.Engine.Rewrite.Agree.{PromisesAll, apply_rewrite-PromisesAll}
use ngx_htaccess.Engine.Uris.Target.{IsPath, apply_target_uri-IsPath, relative_uri-append}
use ngx_htaccess.Engine.Expand.Pieces.{
  Piece, plain, escaped, group_ref, variable_ref, print_pieces, fill_pieces, expand-print_pieces,
}
use ngx_htaccess.Engine.Expand.Total.{expand_total}
use ngx_htaccess.Engine.Expand.{expand_room, expand}
use ngx_htaccess.Engine.State.Env.{or_else, env_get-env_set}
use ngx_htaccess.Engine.State.{
  RequestState, Result, Request, Match, Regexes, matched, unmatched, env_get, env_set,
}
use ngx_htaccess.Tests.Nginx.{nginx, casecmp}
use ngx_htaccess.Walk.Build.{zero_merged, new_dir}

abbrev pub request : Request
request = record {
  headers = (codes "X-A", codes "b") ∷ [];
  server = codes "h.org";
  user = codes "ann";
  passwd = codes "pw";
}

abbrev pub state : RequestState
state = record {
  uri = codes "/old/x";
  filename = codes "/w/old/x";
  query_string = codes "q=1";
  env = record { name = codes "V"; value = codes "1" } ∷ [];
  redirect_code = 0;
}

-- The whole text and one group; the second group took no part.
abbrev old_match : Match
old_match = record { text = codes "old/x"; captures = some (0, 5) ∷ some (4, 5) ∷ none ∷ [] }

-- `/$1\$-%{ENV:V}`
abbrev pieces : List Piece
pieces = plain b'/' ∷ group_ref 1 ∷ escaped b'$' ∷ plain b'-' ∷ variable_ref (codes "ENV:V") ∷ []

expand_run :
    expand nginx request state (codes "/$1\\$-%{ENV:V}%{HTTP:x-a}$2") (some old_match)
    ≡ ok (codes "/x$-1b")
unfolding expand casecmp
expand_run = refl

-- The third group was never written.
fault_run : expand nginx request state (codes "$3") (some old_match) ≡ fault
unfolding expand casecmp
fault_run = refl

expand-print_pieces_example :
    expand nginx request state (print_pieces pieces) (some old_match)
    ≡ fill_pieces nginx request state (some old_match) (expand_room (print_pieces pieces)) pieces []
expand-print_pieces_example =
    expand-print_pieces nginx request state (some old_match) pieces (ground arith)

expand_total_example :
    ((out : Bytes) × (expand nginx request state (codes "a$1") (some old_match) ≡ ok out)
      × (length out ≤ expand_room (codes "a$1")))
    ⊎ (expand nginx request state (codes "a$1") (some old_match) ≡ error)
    ⊎ (expand nginx request state (codes "a$1") (some old_match) ≡ fault)
expand_total_example = expand_total nginx request state (codes "a$1") (some old_match)

env_get-env_set_example :
    env_get (env_set state (codes "V") (codes "2")) (codes "V")
    ≡ or_else (env_get state (codes "V")) (some (codes "2"))
env_get-env_set_example = env_get-env_set state (codes "V") (codes "2")

-- No pattern compiles.
abbrev no_regexes : Regexes
no_regexes = record { compiles = λ _. false; exec = λ _ _. unmatched }

abbrev old_alias : AliasRedirect
old_alias = record { from = codes "/old"; to = codes "/new"; permanent = true; regex = none }

match_path_iff_example :
    (match_path no_regexes old_alias (codes "/old/x") ≡ redirected (codes "/new"))
    ↔ ((rest : Bytes) × (codes "/old/x" ≡ codes "/old" ++ rest) × IsBoundary rest)
match_path_iff_example = match_path_iff no_regexes old_alias (codes "/old/x") (ground arith)

abbrev context : MergedCtx
context = record zero_merged {
  dirs =
      record (new_dir (codes "/w") []) {
        directives =
            record (zero_directive DirectiveId.redirect_match) {
              alias = record old_alias { from = codes "^/o" };
            }
            ∷ record (zero_directive DirectiveId.redirect) { alias = old_alias }
            ∷ [];
      }
      ∷ [];
}

apply_alias_run :
    (apply_alias no_regexes context state).1
    ≡ (record state { uri = codes "/new"; redirect_code = 301 }, Result.redirect)
unfolding apply_alias
apply_alias_run = refl

apply_alias-first_redirect_example :
    (apply_alias no_regexes context state).1
    ≡ alias_result no_regexes state (first_redirect no_regexes state (all_directives context.dirs))
apply_alias-first_redirect_example = apply_alias-first_redirect no_regexes state context

-- The filename is no file, and every pattern compiles and matches nothing.
abbrev pub context_of : Context
context_of = record {
  ngx = nginx;
  sys = record {
    stat = λ _. none;
    open_file = λ _. unopened;
    crypt = λ _ _. none;
    has_memory = λ _. true;
  };
  rx = record { compiles = λ _. true; exec = λ _ _. unmatched };
  root = codes "/w";
  c_text = λ s. s;
  request = request;
  state = state;
}

-- `%{REQUEST_FILENAME} -f` with OR, and a pattern for the query.
abbrev file_cond : RewriteCond
file_cond = record zero_cond { op = CondOp.file; or_next = true }

abbrev query_cond : RewriteCond
query_cond = record zero_cond {
  test = CondTest.query_string;
  op = CondOp.regex;
  value = codes "^z";
}

-- The first passes, although there is no file, and the second is not tested.
conds_run : match_conditions context_of (file_cond ∷ query_cond ∷ []) ≡ ok true
unfolding match_conditions
conds_run = refl

query_run : match_conditions context_of (query_cond ∷ []) ≡ ok false
unfolding match_conditions
query_run = refl

is_ok-file_test_example : is_ok (file_test none CondOp.file) ≡ not (holds CondOp.file none)
is_ok-file_test_example = is_ok-file_test CondOp.file none refl

match_conditions_iff_example :
    (match_conditions context_of (file_cond ∷ query_cond ∷ []) ≡ ok true) ↔ (
      All (GoesOn context_of) (file_cond ∷ query_cond ∷ [])
      ⊎ IsTaken context_of (file_cond ∷ query_cond ∷ []))
match_conditions_iff_example = match_conditions_iff context_of (file_cond ∷ query_cond ∷ [])

-- `RewriteRule ^ /new?a=1 [QSA,L]` under the document root, for an expression that matches anything.
abbrev any_context : Context
any_context = record context_of {
  rx = record { compiles = λ _. true; exec = λ _ _. matched (some (0, 0) ∷ []) };
}

abbrev pub http : Http
http = record {
  uri = codes "/old/x";
  args = codes "q=1";
  unparsed_uri = codes "/old/x?q=1";
  valid_unparsed_uri = true;
  internal = false;
}

abbrev new_rule : Directive
new_rule = record (zero_directive DirectiveId.rewrite_rule) {
  rewrite_rule = record zero_rule {
    pattern = codes "^";
    substitution = codes "/new?a=1";
    qsa = true;
    last = true;
  };
}

abbrev rule_context : MergedCtx
rule_context = record zero_merged {
  dirs =
      record (new_dir (codes "/w") []) { rewrite_engine = true; directives = new_rule ∷ [] } ∷ [];
}

apply_rewrite_run :
    apply_rewrite any_context rule_context http state
    ≡ ok (
      record {
        http = record {
          uri = codes "/new";
          args = codes "a=1&q=1";
          unparsed_uri = codes "/new?a=1&q=1";
          valid_unparsed_uri = false;
          internal = true;
        };
        state = record state { uri = codes "/new"; query_string = codes "a=1&q=1" };
        chain_active = false;
      },
      Result.done,
    )
unfolding apply_rewrite
apply_rewrite_run = refl

apply_rewrite-PromisesAll_example :
    PromisesAll any_context (apply_rewrite any_context rule_context http state)
apply_rewrite-PromisesAll_example =
    apply_rewrite-PromisesAll any_context rule_context http state refl

apply_target_uri-IsPath_example :
    IsPath (apply_target_uri nginx state (codes "new?a") true).0.uri
    × ((apply_target_uri nginx state (codes "new?a") true).1.uri
        ≡ (apply_target_uri nginx state (codes "new?a") true).0.uri)
    × ((apply_target_uri nginx state (codes "new?a") true).1.query_string
        ≡ (apply_target_uri nginx state (codes "new?a") true).0.args)
apply_target_uri-IsPath_example = apply_target_uri-IsPath nginx state (codes "new?a") true

relative_uri-append_example :
    relative_uri (codes "/blog" ++ (b'/' ∷ codes "x")) (codes "/blog") ≡ codes "x"
relative_uri-append_example = relative_uri-append (codes "/blog") (codes "x") (omega arith)
