-- ===== src/Engine/Conds/Files.antt =====
-- What a test of a file says to the loop over the conditions.
use ngx_htaccess.Common.{arith, ◌≡◌, refl, Bool, true, false, not, Option, none, some}
use ngx_htaccess.Directives.{CondOp, FileInfo}
use ngx_htaccess.Engine.Conds.{is_ok, truth, is_file_op, file_test}

is_ok_truth : (b : Bool) → is_ok (truth b) ≡ not b
is_ok_truth true = refl
is_ok_truth false = refl

-- What the four tests of a file mean: a file that is no directory, a directory, a link, or anything.
abbrev pub meets : CondOp → Option FileInfo → Bool
meets CondOp.file (some fi) = not fi.is_dir
meets CondOp.dir (some fi) = fi.is_dir
meets CondOp.symlink (some fi) = fi.is_link
meets CondOp.exists (some fi) = true
meets _ _ = false

-- The test that a negated one denies.
abbrev pub denied : CondOp → Option CondOp
denied CondOp.notfile = some CondOp.file
denied CondOp.notdir = some CondOp.dir
denied CondOp.notsymlink = some CondOp.symlink
denied CondOp.notexists = some CondOp.exists
denied _ = none

-- Whether a test holds of a file.
abbrev pub holds : CondOp → Option FileInfo → Bool
holds op info = elim (denied op) [ none ↦ meets op info | some p ↦ not (meets p info) ]

-- The loop over the conditions takes a test of a file as passed exactly if the test does not hold.
pub is_ok-file_test :
    (op : CondOp) (info : Option FileInfo)
    → is_file_op op ≡ true
    → is_ok (file_test info op) ≡ not (holds op info)
unfolding file_test
is_ok-file_test CondOp.eq info h = absurd (cc h)
is_ok-file_test CondOp.ne info h = absurd (cc h)
is_ok-file_test CondOp.lt info h = absurd (cc h)
is_ok-file_test CondOp.gt info h = absurd (cc h)
is_ok-file_test CondOp.le info h = absurd (cc h)
is_ok-file_test CondOp.ge info h = absurd (cc h)
is_ok-file_test CondOp.regex info h = absurd (cc h)
is_ok-file_test CondOp.nregex info h = absurd (cc h)
is_ok-file_test CondOp.file none h = refl
is_ok-file_test CondOp.file (some fi) h = is_ok_truth (not fi.is_dir)
is_ok-file_test CondOp.notfile none h = refl
is_ok-file_test CondOp.notfile (some fi) h = ground arith
is_ok-file_test CondOp.dir none h = refl
is_ok-file_test CondOp.dir (some fi) h = is_ok_truth (fi.is_dir)
is_ok-file_test CondOp.notdir none h = refl
is_ok-file_test CondOp.notdir (some fi) h = is_ok_truth (not fi.is_dir)
is_ok-file_test CondOp.symlink none h = refl
is_ok-file_test CondOp.symlink (some fi) h = is_ok_truth (fi.is_link)
is_ok-file_test CondOp.notsymlink none h = refl
is_ok-file_test CondOp.notsymlink (some fi) h = is_ok_truth (not fi.is_link)
is_ok-file_test CondOp.exists none h = refl
is_ok-file_test CondOp.exists (some fi) h = is_ok_truth (true)
is_ok-file_test CondOp.notexists none h = refl
is_ok-file_test CondOp.notexists (some fi) h = is_ok_truth (false)
