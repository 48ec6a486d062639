-- ===== src/Cache/Find.antt =====
-- The search of `htaccess_cache_find`: the first entry with the path, and the others in order.
use ngx_htaccess.Common.{
  ◌≡◌, ◌≢◌, refl, ap, inl, inr, List, [], ◌∷◌, ◌++◌, Option, none, some, Bool-cases, Bytes, All,
  same_bytes, memcmp_eq_iff,
}
use ngx_htaccess.Cache.{Entry, behind, unlink_path}

-- `e` is the first entry of the queue `l` with the path, and `rest` is `l` without it.
pub record Unlinks (path : Bytes) (l : List Entry) (e : Entry) (rest : List Entry) : Type 0 where
  pub before : List Entry
  pub behind : List Entry
  pub splits : l ≡ before ++ (e ∷ behind)
  pub others : rest ≡ before ++ behind
  pub path_is : e.path ≡ path
  pub first : All (λ (f : Entry). f.path ≢ path) before

-- What a search has found, or that no entry has the path.
abbrev pub IsUnlinked : Bytes → List Entry → Option (Entry × List Entry) → Type 0
IsUnlinked path l none = All (λ (f : Entry). f.path ≢ path) l
IsUnlinked path l (some (e, rest)) = Unlinks path l e rest

IsUnlinked-behind :
    (path : Bytes) (f : Entry) (l : List Entry) (r : Option (Entry × List Entry))
    → f.path ≢ path
    → IsUnlinked path l r
    → IsUnlinked path (f ∷ l) (behind f r)
IsUnlinked-behind path f l none ne u = (ne, u)
IsUnlinked-behind path f l (some (e, rest)) ne u = record {
  before = f ∷ u.before;
  behind = u.behind;
  splits = ap (◌∷◌ f) u.splits;
  others = ap (◌∷◌ f) u.others;
  path_is = u.path_is;
  first = (ne, u.first);
}

pub unlink_path-IsUnlinked :
    (path : Bytes) (l : List Entry) → IsUnlinked path l (unlink_path path l)
unfolding unlink_path
unlink_path-IsUnlinked path [] = tt
unlink_path-IsUnlinked path (f ∷ l) = elim (Bool-cases (same_bytes f.path path)) [
  | inl same ↦ rw same (record {
    before = [];
    behind = l;
    splits = refl;
    others = refl;
    path_is = (memcmp_eq_iff f.path path).0 same;
    first = tt;
  })
  | inr other ↦ rw other (
      IsUnlinked-behind path f l (unlink_path path l) (λ q. cc ((memcmp_eq_iff f.path path).1 q))
        (unlink_path-IsUnlinked path l))
]
