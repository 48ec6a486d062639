-- ===== src/Configuration/Levels.antt =====
-- The settings of nested blocks.
use ngx_htaccess.Common.{◌≡◌, refl, ap, ◌∙◌, true, false, List, [], ◌∷◌, Option, none, some, codes}
use ngx_htaccess.Configuration.{
  value_or, Slots, LocSettings, as_loc_conf, merge_loc_conf, max_redirects_default,
}
use ngx_htaccess.Ngx.{Ngx}
use ngx_htaccess.Pipeline.{LocConf}

abbrev pub or_outer : {A : Type 0} → Option A → Option A → Option A
or_outer none outer = outer
or_outer (some a) outer = some a

-- The last value that is set in a list of blocks, the outermost first, or that of the block around
-- them.
unfoldable pub innermost :
    {A : Type 0} → (LocSettings → Option A) → Option A → List LocSettings → Option A
innermost pick outer [] = outer
innermost pick outer (s ∷ l) = innermost pick (or_outer (pick s) outer) l

-- The settings that are left where nginx merges each block with the one around it.
pub merge_levels : (ngx : Ngx) → Slots ngx → LocSettings → List LocSettings → LocSettings
unfolding merge_loc_conf
merge_levels ngx slots prev [] = prev
merge_levels ngx slots prev (s ∷ l) = merge_levels ngx slots (merge_loc_conf ngx slots prev s) l

-- The settings of the handler, by the values that the blocks set.
abbrev pub settled : LocSettings → List LocSettings → LocConf
settled outer l = record {
  enable = value_or (innermost (λ s. s.enable) outer.enable l) false;
  filename = value_or (innermost (λ s. s.filename) outer.filename l) (codes ".htaccess");
  cache_enable = value_or (innermost (λ s. s.cache_enable) outer.cache_enable l) true;
  max_redirects =
      value_or (innermost (λ s. s.max_redirects) outer.max_redirects l) max_redirects_default;
}

-- A value that has its default already settles the same.
value_or-default :
    {A : Type 0} (pick : LocSettings → Option A) (o outer : Option A) (d : A) (l : List LocSettings)
    → ((m : Option A)
        → value_or (innermost pick (some (value_or m d)) l) d ≡ value_or (innermost pick m l) d)
    → value_or (innermost pick (or_outer o (some (value_or outer d))) l) d
      ≡ value_or (innermost pick (or_outer o outer) l) d
value_or-default pick none outer d l h = h outer
value_or-default pick (some a) outer d l h = refl

innermost-value_or :
    {A : Type 0} (pick : LocSettings → Option A) (d : A) (l : List LocSettings) (outer : Option A)
    → value_or (innermost pick (some (value_or outer d)) l) d ≡ value_or (innermost pick outer l) d
unfolding innermost
innermost-value_or pick d [] none = refl
innermost-value_or pick d [] (some a) = refl
innermost-value_or pick d (s ∷ l) outer =
    value_or-default pick (pick s) outer d l (innermost-value_or pick d l)

or_outer-value_or :
    {A : Type 0} (o outer : Option A) (d : A)
    → some (value_or o (value_or outer d)) ≡ or_outer o (some (value_or outer d))
or_outer-value_or none outer d = refl
or_outer-value_or (some a) outer d = refl

value_or-value_or :
    {A : Type 0} (o outer : Option A) (d : A)
    → value_or o (value_or outer d) ≡ value_or (or_outer o outer) d
value_or-value_or none outer d = refl
value_or-value_or (some a) outer d = refl

-- A field behind a merge settles to what it settles to before it.
merged-innermost :
    {A : Type 0} (pick : LocSettings → Option A) (s : LocSettings) (outer : Option A) (d : A)
    (l : List LocSettings) (m : Option A)
    → m ≡ some (value_or (pick s) (value_or outer d))
    → value_or (innermost pick m l) d ≡ value_or (innermost pick outer (s ∷ l)) d
unfolding innermost
merged-innermost pick s outer d l m e =
    ap (λ o. value_or (innermost pick o l) d) (e ∙ or_outer-value_or (pick s) outer d)
    ∙ value_or-default pick (pick s) outer d l (innermost-value_or pick d l)

module _ (ngx : Ngx) (slots : Slots ngx) where
  open slots use {merge_value_lem, merge_str_value_lem, merge_uint_value_lem}

  merge_loc_conf-settled :
      (prev s : LocSettings) (l : List LocSettings)
      → settled (merge_loc_conf ngx slots prev s) l ≡ settled prev (s ∷ l)
  unfolding merge_loc_conf
  merge_loc_conf-settled prev s l = cc (
    merged-innermost (λ s. s.enable) s prev.enable false l _
        (merge_value_lem s.enable prev.enable false),
    merged-innermost (λ s. s.filename) s prev.filename (codes ".htaccess") l _
        (merge_str_value_lem s.filename prev.filename (codes ".htaccess")),
    merged-innermost (λ s. s.cache_enable) s prev.cache_enable true l _
        (merge_value_lem s.cache_enable prev.cache_enable true),
    merged-innermost (λ s. s.max_redirects) s prev.max_redirects max_redirects_default l _
        (merge_uint_value_lem s.max_redirects prev.max_redirects max_redirects_default),
  )

  -- Behind one merge all fields are set.
  as_loc_conf-merge_loc_conf :
      (prev s : LocSettings)
      → as_loc_conf (merge_loc_conf ngx slots prev s) ≡ some (settled prev (s ∷ []))
  unfolding merge_loc_conf as_loc_conf innermost
  as_loc_conf-merge_loc_conf prev s =
      rw
        (
          merge_value_lem s.enable prev.enable false,
          merge_str_value_lem s.filename prev.filename (codes ".htaccess"),
          merge_value_lem s.cache_enable prev.cache_enable true,
          merge_uint_value_lem s.max_redirects prev.max_redirects max_redirects_default,
          value_or-value_or s.enable prev.enable false,
          value_or-value_or s.filename prev.filename (codes ".htaccess"),
          value_or-value_or s.cache_enable prev.cache_enable true,
          value_or-value_or s.max_redirects prev.max_redirects max_redirects_default,
        )
        refl

  -- In a location below any number of blocks, each field that the handler reads has the value of the
  -- innermost block that sets it, and if none does its default: off, `.htaccess`, on, and ten passes.
  -- No field is left unset.
  pub merge_levels-settled :
      (outer s : LocSettings) (l : List LocSettings)
      → as_loc_conf (merge_levels ngx slots outer (s ∷ l)) ≡ some (settled outer (s ∷ l))
  unfolding merge_levels
  merge_levels-settled outer s [] = as_loc_conf-merge_loc_conf outer s
  merge_levels-settled outer s (t ∷ l) =
      merge_levels-settled (merge_loc_conf ngx slots outer s) t l
      ∙ ap some (merge_loc_conf-settled outer s (t ∷ l))
