-- ===== src/Tests/Parsing.antt =====
-- The parser at concrete files.
use ngx_htaccess.Common.{◌≡◌, refl, ◌↔◌, List, [], ◌∷◌, true, Bytes, codes, ◌⊎◌, ok, error, fault}
use ngx_htaccess.Directives.{
  DirectiveId, CondTest, CondOp, RewriteCond, RewriteRule, zero_rule, zero_directive, ParsedFile,
}
use ngx_htaccess.Parser.Flags.Total.{parse_rule_flags_total}
use ngx_htaccess.Parser.Conds.{parse_rewrite_cond}
use ngx_htaccess.Parser.Flags.{parse_rule_flags}
use ngx_htaccess.Parser.Parse.Nested.{parse_nested}
use ngx_htaccess.Parser.Parse.Refine.{parse-parse_nested}
use ngx_htaccess.Parser.Parse.Total.{parse_total}
use ngx_htaccess.Parser.Parse.{parse}
use ngx_htaccess.Parser.Push.Faults.{push_directive-fault_iff, is_unchecked}
use ngx_htaccess.Parser.Push.{Gathered, push_directive}
use ngx_htaccess.Tests.Nginx.{nginx, casecmp, atoi}

abbrev rule_file : Bytes
rule_file =
    codes
      "RewriteEngine On\n<IfModule x>\nRewriteCond %{HTTP_HOST} ^a [OR]\nRewriteRule ^old$ /new [R=301,L]\n</IfModule>\n"

abbrev host_cond : RewriteCond
host_cond = record {
  test = CondTest.http;
  name = codes "Host";
  op = CondOp.regex;
  value = codes "^a";
  or_next = true;
}

abbrev old_rule : RewriteRule
old_rule = record zero_rule {
  pattern = codes "^old$";
  substitution = codes "/new";
  last = true;
  redirect = true;
  redirect_code = 301;
  conditions = host_cond ∷ [];
}

rule_file_run :
    parse nginx 5 rule_file
    ≡ ok (record {
      directives =
          record (zero_directive DirectiveId.rewrite_engine) { flag = true }
          ∷ record (zero_directive DirectiveId.rewrite_rule) { rewrite_rule = old_rule }
          ∷ [];
      pool = 5;
    })
unfolding parse casecmp atoi parse_rewrite_cond parse_rule_flags
rule_file_run = refl

-- One malformed line, and the whole file is refused.
refused_run : parse nginx 5 (codes "Require all denied\nRedirect /a\n") ≡ error
unfolding parse casecmp
refused_run = refl

-- `Order` with no argument.
fault_run : parse nginx 5 (codes "Order\n") ≡ fault
unfolding parse casecmp
fault_run = refl

parse_total_example :
    ((f : ParsedFile) × (parse nginx 5 rule_file ≡ ok f))
    ⊎ (parse nginx 5 rule_file ≡ error)
    ⊎ (parse nginx 5 rule_file ≡ fault)
parse_total_example = parse_total nginx 5 rule_file

parse-parse_nested_example : parse nginx 5 rule_file ≡ parse_nested nginx 5 rule_file
parse-parse_nested_example = parse-parse_nested nginx 5 rule_file

parse_rule_flags_total_example :
    (r : RewriteRule) × (parse_rule_flags nginx (codes "[R=301,L]") zero_rule ≡ ok r)
parse_rule_flags_total_example = parse_rule_flags_total nginx (codes "[R=301,L]") zero_rule

abbrev nothing : Gathered
nothing = record { directives = []; pending = [] }

push_directive-fault_iff_example :
    (push_directive nginx DirectiveId.order (codes "Order" ∷ []) [] nothing ≡ fault)
    ↔ ((is_unchecked DirectiveId.order ≡ true) × (◌≡◌ {A = List Bytes} [] []))
push_directive-fault_iff_example =
    push_directive-fault_iff nginx DirectiveId.order (codes "Order") [] [] nothing
