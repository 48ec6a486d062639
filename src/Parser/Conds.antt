-- ===== src/Parser/Conds.antt =====
-- htaccess_parse_rewrite_cond: the arguments of `RewriteCond`.
use ngx_htaccess.Common.{
  ℕ, ◌-◌, Bool, false, ◌&&◌, List, [], ◌∷◌, none, some, ◌==◌, leb, if◌then◌else◌, Bytes, codes,
  length, get_or, take, drop, strncmp_eq, Outcome, ok, error,
}
use ngx_htaccess.Directives.{CondTest, CondOp, RewriteCond, zero_cond}
use ngx_htaccess.Ngx.{Ngx}

-- `p->data[i]`, which is in range wherever the sources read it.
abbrev pub byte_at : Bytes → ℕ → ℕ
byte_at p i = get_or p i 0

-- `value->len == n && ngx_strncmp(value->data, word, len(word)) == 0`
abbrev pub is_op : ℕ → Bytes → Bytes → Bool
is_op n word value = length value == n && strncmp_eq value word (length word)

-- The file tests.
unfoldable pub cond_op : Bytes → CondOp
unfolding strncmp_eq
cond_op value =
    if length value == 2 && byte_at value 0 == b'-' && byte_at value 1 == b'f'
    then CondOp.file
    else if is_op 3 (codes "-d") value
    then CondOp.dir
    else if is_op 3 (codes "-l") value
    then CondOp.symlink
    else if is_op 3 (codes "-s") value
    then CondOp.exists
    else if is_op 4 (codes "!-f") value
    then CondOp.notfile
    else if is_op 4 (codes "!-d") value
    then CondOp.notdir
    else if is_op 4 (codes "!-l") value
    then CondOp.notsymlink
    else if is_op 4 (codes "!-s") value
    then CondOp.notexists
    else CondOp.regex

unfoldable pub skip_spaces : Bytes → Bytes
skip_spaces [] = []
skip_spaces (c ∷ p) = if c == b' ' then skip_spaces p else c ∷ p

-- The flags without the brackets around them.
abbrev pub strip_brackets : Bytes → Bytes
strip_brackets p =
    if leb 2 (length p) && byte_at p 0 == b'[' && byte_at p (length p - 1) == b']'
    then take (length p - 2) (drop 1 p)
    else p

module _ (ngx : Ngx) where
  open ngx use {strncasecmp_eq, strlchr}

  -- The test and its name from `p`, the text behind `%{`, whose first `}` stands at `last`.
  unfoldable pub braced_test : Bytes → ℕ → CondTest × Bytes
  braced_test p last =
      if leb 17 last && strncasecmp_eq p (codes "REQUEST_FILENAME") 16
      then (CondTest.filename, [])
      else if leb 12 last && strncasecmp_eq p (codes "REQUEST_URI") 11
      then (CondTest.uri, [])
      else if leb 13 last && strncasecmp_eq p (codes "QUERY_STRING") 12
      then (CondTest.query_string, [])
      else if leb 9 last && strncasecmp_eq p (codes "HTTP_HOST") 9
      then (CondTest.http, codes "Host")
      else if leb 5 last && strncasecmp_eq p (codes "HTTP:") 5
      then (CondTest.http, take (last - 5) (drop 5 p))
      else if leb 4 last && strncasecmp_eq p (codes "ENV:") 4
      then (CondTest.env, take (last - 4) (drop 4 p))
      else (CondTest.other, [])

  -- The test string. What does not begin with `%` leaves the zeroed test, which is `filename`.
  unfoldable pub cond_test : Bytes → Outcome (CondTest × Bytes)
  unfolding braced_test
  cond_test test =
      if leb 3 (length test) && byte_at test 0 == b'%' && byte_at test 1 == b'{'
      then elim (strlchr (drop 2 test) b'}') [
        | none ↦ error
        | some last ↦ ok (braced_test (drop 2 test) last)
      ]
      else if leb 1 (length test) && byte_at test 0 == b'%'
      then ok (CondTest.fspath, drop 1 test)
      else ok (CondTest.filename, [])

  unfoldable pub or_flag : Bytes → Bool
  unfolding skip_spaces
  or_flag flags =
      let stripped = strip_brackets (skip_spaces flags) in
      leb 2 (length stripped) && strncasecmp_eq stripped (codes "OR") 2

  -- The condition, with its flag OR, behind its test.
  abbrev pub with_value : CondTest × Bytes → Bytes → Bool → RewriteCond
  with_value (test, name) value or_next = record {
    test = test;
    name = name;
    op = cond_op value;
    value = value;
    or_next = or_next;
  }

  -- The arguments hold the directive's name first.
  unfoldable pub parse_rewrite_cond : List Bytes → Outcome RewriteCond
  unfolding cond_op cond_test or_flag
  parse_rewrite_cond (_ ∷ test ∷ []) = elim (cond_test test) [
    | ok (kind, name) ↦ ok (record zero_cond { test = kind; name = name })
    | _ ↦ error
  ]
  parse_rewrite_cond (_ ∷ test ∷ value ∷ []) = elim (cond_test test) [
    | ok kind ↦ ok (with_value kind value false)
    | _ ↦ error
  ]
  parse_rewrite_cond (_ ∷ test ∷ value ∷ flags ∷ _) = elim (cond_test test) [
    | ok kind ↦ ok (with_value kind value (or_flag flags))
    | _ ↦ error
  ]
  parse_rewrite_cond _ = error
