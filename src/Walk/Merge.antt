-- ===== src/Walk/Merge.antt =====
-- htaccess_merge_directive and htaccess_merge_parsed. The texts and lists that they assign are
-- pointers into the pool of the parsed file; the walk records that pool (Walk.Build.borrow).
use ngx_htaccess.Common.{
  ◌&&◌, ◌||◌, List, [], ◌∷◌, ◌++◌, Option, none, some, leb, ltb, if◌then◌else◌, codes, length,
}
use ngx_htaccess.Directives.{
  DirectiveId, Directive, DirCtx, MergedCtx, FilesRule, ParsedFile, zero_header,
}
use ngx_htaccess.Ngx.{Ngx}
use ngx_htaccess.Walk.Chains.{mark_rewrite_chains}

-- The context of the request, and of the directory whose file is merged into it.
pub record Merge : Type 0 where
  pub merged : MergedCtx
  pub dir : DirCtx

module _ (ngx : Ngx) where
  open ngx use {strncasecmp_eq}

  -- The rule of a `Require` in a `FilesMatch` block.
  abbrev pub files_rule : Directive → FilesRule
  files_rule d = record {
    pattern = d.files_match;
    deny = leb 10 (length d.str) && strncasecmp_eq d.str (codes "all denied") 10;
    regex = none;
  }

  abbrev pub merge_require : Directive → MergedCtx → MergedCtx
  merge_require d m =
      if ltb 0 (length d.files_match)
      then record m { files_rules = m.files_rules ++ (files_rule d ∷ []) }
      else record m { requires = m.requires ++ (d.str ∷ []) }

  -- The cases that change the context of the request.
  unfoldable pub merge_request : DirectiveId → Directive → MergedCtx → MergedCtx
  merge_request DirectiveId.auth_type d m = record m { auth_type = d.str }
  merge_request DirectiveId.auth_name d m = record m { auth_name = d.str }
  merge_request DirectiveId.auth_user_file d m = record m { auth_user_file = d.str }
  merge_request DirectiveId.require d m = merge_require d m
  merge_request DirectiveId.order d m = record m { order = d.str }
  merge_request DirectiveId.allow d m = record m { allows = m.allows ++ (d.str ∷ []) }
  merge_request DirectiveId.deny d m = record m { denies = m.denies ++ (d.str ∷ []) }
  merge_request DirectiveId.header d m = record m { headers = m.headers ++ (d.header ∷ []) }
  merge_request DirectiveId.expires_active d m = record m { expires_active = d.flag }
  merge_request DirectiveId.expires_by_type d m = record m {
    expires_by_type =
        m.expires_by_type
        ++ (record zero_header { name = d.header.name; value = d.header.value } ∷ []);
  }
  merge_request DirectiveId.expires_default d m = record m { expires_default = d.str }
  merge_request DirectiveId.error_document d m = record m {
    error_documents = m.error_documents ++ (d.error_doc ∷ []);
  }
  merge_request DirectiveId.options d m = record m { options = m.options || d.flag }
  merge_request DirectiveId.directory_index d m = record m { directory_index = d.str }
  merge_request _ d m = m

-- The cases that change the context of the directory.
unfoldable pub merge_dir : DirectiveId → Directive → DirCtx → DirCtx
unfolding mark_rewrite_chains
merge_dir DirectiveId.rewrite_engine d dir = record dir { rewrite_engine = d.flag }
merge_dir DirectiveId.rewrite_base d dir = record dir { rewrite_base = d.str }
merge_dir DirectiveId.rewrite_rule d dir = record dir {
  directives = mark_rewrite_chains (dir.directives ++ (d ∷ []));
}
merge_dir DirectiveId.redirect d dir = record dir { directives = dir.directives ++ (d ∷ []) }
merge_dir DirectiveId.redirect_match d dir = record dir { directives = dir.directives ++ (d ∷ []) }
merge_dir DirectiveId.redirect_permanent d dir = record dir {
  directives = dir.directives ++ (d ∷ []);
}
merge_dir DirectiveId.redirect_temp d dir = record dir { directives = dir.directives ++ (d ∷ []) }
merge_dir _ d dir = dir

module _ (ngx : Ngx) where
  unfoldable pub merge_directive : Directive → Merge → Merge
  unfolding merge_request merge_dir
  merge_directive d g = record {
    merged = merge_request ngx d.id d g.merged;
    dir = merge_dir d.id d g.dir;
  }

  -- The loop of `htaccess_merge_parsed`.
  unfoldable pub merge_all : List Directive → Merge → Merge
  unfolding merge_directive
  merge_all [] g = g
  merge_all (d ∷ l) g = merge_all l (merge_directive d g)

  unfoldable pub merge_parsed : Option ParsedFile → Merge → Merge
  unfolding merge_all
  merge_parsed none g = g
  merge_parsed (some f) g = merge_all f.directives g
