-- ===== src/Walk/Paths.antt =====
-- htaccess_join_path, and the C string that it leaves.
use ngx_htaccess.Common.{
  ℕ, ◌+◌, ◌-◌, ◌≤◌, ◌||◌, [], ◌∷◌, ◌++◌, arith, ◌==◌, Bool-cases, inl, inr, if◌then◌else◌, Bytes,
  length, length-append, not,
}
use ngx_htaccess.Parser.Conds.{byte_at}

-- A slash, unless the text ends in one.
abbrev pub slash_behind : Bytes → Bytes
slash_behind p = if length p == 0 || not (byte_at p (length p - 1) == b'/') then b'/' ∷ [] else []

-- What is written for the suffix.
abbrev pub suffix_part : Bytes → Bytes
suffix_part [] = []
suffix_part (c ∷ p) = c ∷ (p ++ slash_behind (c ∷ p))

-- The text up to the file's name; its length is `*dir_len`.
unfoldable pub join_dir : Bytes → Bytes → Bytes
join_dir root suffix = root ++ (slash_behind root ++ suffix_part suffix)

unfoldable pub join_path : Bytes → Bytes → Bytes → Bytes
unfolding join_dir
join_path root suffix filename = join_dir root suffix ++ filename

-- `len`, the bytes allocated.
abbrev pub join_room : Bytes → Bytes → Bytes → ℕ
join_room root suffix filename = length root + length suffix + length filename + 3

-- `ngx_strlen`: the bytes of a C string end before its first NUL.
unfoldable pub c_string : Bytes → Bytes
c_string [] = []
c_string (c ∷ p) = let rest = c ∷ c_string p in if c == 0 then [] else rest

pub length-slash_behind : (p : Bytes) → length (slash_behind p) ≤ 1
length-slash_behind p =
    elim (Bool-cases (length p == 0 || not (byte_at p (length p - 1) == b'/'))) [
      | inl none_there ↦ rw none_there (omega arith)
      | inr there ↦ rw there (omega arith)
    ]

length-suffix_part : (p : Bytes) → length (suffix_part p) ≤ length p + 1
length-suffix_part [] = omega arith
length-suffix_part (c ∷ p) =
    omega (arith, length-append p (slash_behind (c ∷ p)), length-slash_behind (c ∷ p))

-- `htaccess_join_path` writes its path and the NUL behind it within the bytes that it allocates.
pub join_path-le-join_room :
    (root suffix filename : Bytes)
    → length (join_path root suffix filename) + 1 ≤ join_room root suffix filename
unfolding join_path
join_path-le-join_room root suffix filename = omega (
  arith,
  length-append (join_dir root suffix) filename,
  length-append root (slash_behind root ++ suffix_part suffix),
  length-append (slash_behind root) (suffix_part suffix),
  length-slash_behind root,
  length-suffix_part suffix,
)
