-- ===== src/Engine/Conds.antt =====
-- The conditions of a rule: htaccess_file_test, htaccess_test_cond and htaccess_match_conditions of
-- src/htaccess_rewrite.c.
pub mod Files
pub mod Order
pub mod Decided
use ngx_htaccess.Common.{
  ℕ, Bool, true, false, not, ◌&&◌, ◌||◌, List, [], ◌∷◌, ◌++◌, Option, none, some, ◌==◌, leb,
  if◌then◌else◌, Bytes, length, strncmp_eq, Outcome, ok, error, fault, out_of_fuel, ◌>>=◌,
}
use ngx_htaccess.Directives.{CondTest, CondOp, RewriteCond, FileInfo, Regex}
use ngx_htaccess.Engine.Expand.{expand, find_header, or_empty}
use ngx_htaccess.Engine.State.{
  RequestState, Request, Regexes, Exec, matched, unmatched, refused, env_get,
}
use ngx_htaccess.Ngx.{Ngx}
use ngx_htaccess.System.{System}
use ngx_htaccess.Walk.Paths.{slash_behind, c_string}

-- An `ngx_int_t` result: a number, of which NGX_OK is 0, or a negative code.
pub data Code : Type 0 where
  number : ℕ → Code
  code_declined code_error : Code

-- `rc == NGX_OK`
abbrev pub is_ok : Code → Bool
is_ok (number n) = n == 0
is_ok _ = false

-- A truth value of C.
abbrev pub truth : Bool → Code
truth b = number (if b then 1 else 0)

abbrev pub is_there : Option FileInfo → Bool
is_there none = false
is_there (some fi) = true

abbrev pub is_dir : Option FileInfo → Bool
is_dir none = false
is_dir (some fi) = fi.is_dir

abbrev pub is_link : Option FileInfo → Bool
is_link none = false
is_link (some fi) = fi.is_link

-- `htaccess_file_test`, by what `ngx_file_info` says of the path.
unfoldable pub file_test : Option FileInfo → CondOp → Code
file_test info CondOp.file = truth (is_there info && not (is_dir info))
file_test info CondOp.notfile = truth (not (is_there info) || is_dir info)
file_test info CondOp.dir = truth (is_there info && is_dir info)
file_test info CondOp.notdir = truth (not (is_there info) || not (is_dir info))
file_test info CondOp.symlink = truth (is_there info && is_link info)
file_test info CondOp.notsymlink = truth (not (is_there info) || not (is_link info))
file_test info CondOp.exists = truth (is_there info)
file_test info CondOp.notexists = truth (not (is_there info))
file_test info _ = code_declined

-- `op >= HTACCESS_COND_OP_FILE && op <= HTACCESS_COND_OP_NOTEXISTS`
abbrev pub is_file_op : CondOp → Bool
is_file_op CondOp.eq = false
is_file_op CondOp.ne = false
is_file_op CondOp.lt = false
is_file_op CondOp.gt = false
is_file_op CondOp.le = false
is_file_op CondOp.ge = false
is_file_op CondOp.regex = false
is_file_op CondOp.nregex = false
is_file_op _ = true

abbrev pub cond_regex : RewriteCond → Regex
cond_regex cond = record { pattern = cond.value; caseless = false }

-- What the conditions read: nginx, the file system, the regular expressions, the document root, the
-- request and its state. `c_text` is the C string that begins with a text that the code does not end
-- with a NUL.
pub record Context : Type 0 where
  pub ngx : Ngx
  pub sys : System
  pub rx : Regexes
  pub root : Bytes
  pub c_text : Bytes → Bytes
  pub request : Request
  pub state : RequestState

module _ (cx : Context) where
  open cx use {ngx, sys, rx, root, c_text, request, state}

  -- A pattern that is expected to match, or not to.
  abbrev pub by_exec : Bool → Exec → Code
  by_exec negated (matched captures) = if negated then code_declined else number 0
  by_exec negated unmatched = if negated then number 0 else code_declined
  by_exec negated refused = code_declined

  abbrev pub test_regex : Bool → RewriteCond → Bytes → Code
  test_regex negated cond value =
      if rx.compiles (cond_regex cond)
      then by_exec negated (rx.exec (cond_regex cond) value)
      else code_error

  -- The end of `htaccess_test_cond` behind its two operations on patterns.
  abbrev pub test_begins : RewriteCond → Bytes → Code
  test_begins cond value =
      let n = length cond.value in
      if n == 0
      then number 0
      else if leb n (length value) && strncmp_eq value cond.value n
      then number 0
      else code_declined

  -- `htaccess_test_cond` behind its switch.
  abbrev pub test_value : CondOp → RewriteCond → Bytes → Code
  test_value CondOp.regex cond value = test_regex false cond value
  test_value CondOp.nregex cond value = test_regex true cond value
  test_value _ cond value = test_begins cond value

  -- The path that the case of a path below the document root builds.
  abbrev pub root_path : Bytes → Bytes
  root_path expanded = root ++ (slash_behind root ++ expanded)

  abbrev pub test_fspath : CondOp → Outcome Bytes → Outcome Code
  test_fspath op (ok expanded) = ok (file_test (sys.stat (c_string (root_path expanded))) op)
  test_fspath op error = ok code_error
  test_fspath op fault = fault
  test_fspath op out_of_fuel = out_of_fuel

  -- `htaccess_test_cond`, by the condition's test.
  unfoldable pub test_by : CondTest → RewriteCond → Outcome Code
  unfolding file_test expand find_header env_get
  test_by CondTest.filename cond = ok (
      if is_file_op cond.op
      then file_test (sys.stat (c_text state.filename)) cond.op
      else test_value cond.op cond state.filename)
  test_by CondTest.fspath cond = test_fspath cond.op (expand ngx request state cond.name none)
  test_by CondTest.uri cond = ok (test_value cond.op cond state.uri)
  test_by CondTest.query_string cond = ok (test_value cond.op cond state.query_string)
  test_by CondTest.http cond =
      ok (test_value cond.op cond (or_empty (find_header ngx request.headers cond.name)))
  test_by CondTest.env cond = ok (test_value cond.op cond (or_empty (env_get state cond.name)))
  test_by CondTest.other cond = ok code_declined

  unfoldable pub test_cond : RewriteCond → Outcome Code
  unfolding test_by
  test_cond cond = test_by cond.test cond

  -- A round of the loop, by the flag OR and the test's result, before the rest.
  abbrev pub go_on : Bool → Bool → Outcome Bool → Outcome Bool
  go_on true true rest = ok true
  go_on true false rest = rest
  go_on false true rest = rest
  go_on false false rest = ok false

  -- `htaccess_match_conditions`: true for NGX_OK, false for NGX_DECLINED.
  unfoldable pub match_conditions : List RewriteCond → Outcome Bool
  unfolding test_cond
  match_conditions [] = ok true
  match_conditions (c ∷ l) =
      let rest = match_conditions l in test_cond c >>= λ rc. go_on c.or_next (is_ok rc) rest
