-- ===== src/Walk/Build/Lent.antt =====
-- What a file leaves in the context where its pool is not recorded.
use ngx_htaccess.Common.{◌≡◌, refl, ap, ◌∙◌, Bool, true, false, ◌||◌, List, [], ◌∷◌, some}
use ngx_htaccess.Directives.{DirectiveId, Directive, ParsedFile}
use ngx_htaccess.Ngx.{Ngx}
use ngx_htaccess.Walk.Build.{copies_pointer, lends}
use ngx_htaccess.Walk.Merge.{
  Merge, merge_request, merge_dir, merge_directive, merge_all, merge_parsed,
}

-- Another context with its own flags, and the texts and lists of this one.
abbrev with_flags_of : Merge → Merge → Merge
with_flags_of g other = record {
  merged = record (g.merged) {
    expires_active = other.merged.expires_active;
    options = other.merged.options;
  };
  dir = record (g.dir) { rewrite_engine = other.dir.rewrite_engine };
}

or_parts : (x y : Bool) → (x || y) ≡ false → (x ≡ false) × (y ≡ false)
or_parts true y h = absurd (cc h)
or_parts false y h = (refl, h)

module _ (ngx : Ngx) where
  by_id :
      (id : DirectiveId) (d : Directive) (g : Merge)
      → copies_pointer id ≡ false
      → record { merged = merge_request ngx id d g.merged; dir = merge_dir id d g.dir }
        ≡ with_flags_of g
            (record { merged = merge_request ngx id d g.merged; dir = merge_dir id d g.dir })
  unfolding merge_request merge_dir
  by_id DirectiveId.rewrite_engine d g h = refl
  by_id DirectiveId.rewrite_base d g h = absurd (cc h)
  by_id DirectiveId.rewrite_cond d g h = refl
  by_id DirectiveId.rewrite_rule d g h = absurd (cc h)
  by_id DirectiveId.redirect d g h = absurd (cc h)
  by_id DirectiveId.redirect_match d g h = absurd (cc h)
  by_id DirectiveId.redirect_permanent d g h = absurd (cc h)
  by_id DirectiveId.redirect_temp d g h = absurd (cc h)
  by_id DirectiveId.auth_type d g h = absurd (cc h)
  by_id DirectiveId.auth_name d g h = absurd (cc h)
  by_id DirectiveId.auth_user_file d g h = absurd (cc h)
  by_id DirectiveId.require d g h = absurd (cc h)
  by_id DirectiveId.order d g h = absurd (cc h)
  by_id DirectiveId.allow d g h = absurd (cc h)
  by_id DirectiveId.deny d g h = absurd (cc h)
  by_id DirectiveId.header d g h = absurd (cc h)
  by_id DirectiveId.expires_active d g h = refl
  by_id DirectiveId.expires_by_type d g h = absurd (cc h)
  by_id DirectiveId.expires_default d g h = absurd (cc h)
  by_id DirectiveId.error_document d g h = absurd (cc h)
  by_id DirectiveId.options d g h = refl
  by_id DirectiveId.directory_index d g h = absurd (cc h)

  merge_all-with_flags_of :
      (l : List Directive) (g : Merge)
      → lends l ≡ false
      → merge_all ngx l g ≡ with_flags_of g (merge_all ngx l g)
  unfolding merge_all merge_directive lends
  merge_all-with_flags_of [] g h = refl
  merge_all-with_flags_of (d ∷ l) g h =
      let (flags, rest) = or_parts (copies_pointer d.id) (lends l) h in
      let one = by_id d.id d g flags in
      merge_all-with_flags_of l (merge_directive ngx d g) rest
      ∙ ap (λ x. with_flags_of x (merge_all ngx l (merge_directive ngx d g))) one

  -- A file whose pool is not recorded leaves every text and every list of the context and of its
  -- directory as they were, and changes at most flags.
  merge_parsed-with_flags_of :
      (f : ParsedFile) (g : Merge)
      → lends f.directives ≡ false
      → merge_parsed ngx (some f) g ≡ with_flags_of g (merge_parsed ngx (some f) g)
  unfolding merge_parsed
  merge_parsed-with_flags_of f g h = merge_all-with_flags_of f.directives g h
