-- ===== src/Tests/Requests.antt =====
-- Whole requests at a concrete file system.
use ngx_htaccess.Common.{
  ◌+◌, ◌≤◌, ◌≡◌, ◌≢◌, refl, arith, true, false, [], ◌∷◌, none, some, if◌then◌else◌, Bytes, codes,
  length, same_bytes, memcmp_eq, Outcome, ok, fault,
}
use ngx_htaccess.Cache.{cache_lookup, cache_store, make_room, cache_evict}
use ngx_htaccess.Engine.Conds.{Context, Code, number, code_declined}
use ngx_htaccess.Engine.FilesRules.Denied.{any_denies}
use ngx_htaccess.Engine.FilesRules.{files_target}
use ngx_htaccess.Engine.Uris.{Http}
use ngx_htaccess.Engine.State.{matched}
use ngx_htaccess.Parser.Flags.{parse_rule_flags}
use ngx_htaccess.Parser.Parse.{parse}
use ngx_htaccess.Pipeline.Returns.{Ends, execute-Ends}
use ngx_htaccess.Pipeline.Room.{file_below-le-file_room}
use ngx_htaccess.Pipeline.Served.{Declines, execute-Declines, execute-any_denies}
use ngx_htaccess.Pipeline.{start_view, LocConf, View, walk_conf, file_below, file_room, execute}
use ngx_htaccess.System.{System, unopened, content}
use ngx_htaccess.Tests.Engines.{context_of}
use ngx_htaccess.Tests.Guarding.{response, inc_regexes}
use ngx_htaccess.Tests.Nginx.{nginx, casecmp, atoi}
use ngx_htaccess.Tests.Walking.{sys, worker, worker-IsCoherent, root_path}
use ngx_htaccess.Walk.Build.{
  Walking, zero_merged, lends, is_in, any_destroyed, dangles, build_merged_ctx,
}
use ngx_htaccess.Walk.Load.{Worker, load_file}
use ngx_htaccess.Walk.Merge.{merge_parsed}
use ngx_htaccess.Walk.Paths.{join_path, c_string}

abbrev loc : LocConf
loc = record { enable = true; filename = codes ".htaccess"; cache_enable = true; max_redirects = 2 }

-- The document root has one file, with these bytes.
abbrev system_with : Bytes → System
system_with bytes = record {
  stat = λ path.
      if same_bytes path root_path
      then some (record { mtime = 1; size = 10; is_dir = false; is_link = false })
      else none;
  open_file = λ path. if same_bytes path root_path then content bytes else unopened;
  crypt = λ _ _. none;
  has_memory = λ _. true;
}

abbrev cold_worker : Worker
cold_worker = record {
  cache = record { lru = []; count = 0; max_entries = 4; destroyed = [] };
  next_pool = 0;
}

abbrev request_for : Bytes → Http
request_for uri = record {
  uri = uri;
  args = [];
  unparsed_uri = uri;
  valid_unparsed_uri = true;
  internal = false;
}

-- The file denies what the expression matches.
abbrev denying : Context
denying = record context_of {
  sys = system_with (codes "<FilesMatch \"inc\">\nRequire all denied\n</FilesMatch>\n");
  rx = inc_regexes;
}

abbrev walked : Outcome Walking → Walking
walked (ok s) = s
walked _ = record { worker = cold_worker; context = zero_merged; pools = [] }

abbrev denied_walk : Walking
denied_walk =
    walked
      (build_merged_ctx nginx denying.sys (walk_conf denying.root loc) (codes "/a.inc") cold_worker)

denied_walk_ok :
    build_merged_ctx nginx denying.sys (walk_conf denying.root loc) (codes "/a.inc") cold_worker
    ≡ ok denied_walk
unfolding build_merged_ctx load_file parse casecmp atoi cache_lookup cache_store join_path c_string
    make_room cache_evict merge_parsed memcmp_eq
denied_walk_ok = refl

denied_run :
    any_denies inc_regexes (files_target (codes "/a.inc")) denied_walk.context.files_rules ≡ true
unfolding any_denies build_merged_ctx load_file parse casecmp atoi cache_lookup cache_store
    join_path c_string make_room cache_evict merge_parsed memcmp_eq
denied_run = refl

execute-any_denies_example :
    execute denying loc cold_worker (request_for (codes "/a.inc")) response ≡ (
      if dangles [] denied_walk
      then fault
      else ok (
        number 403,
        (denied_walk.worker, start_view denying (request_for (codes "/a.inc")) response),
      ))
execute-any_denies_example =
    execute-any_denies denying loc cold_worker (request_for (codes "/a.inc")) response denied_walk
      (λ e. omega (arith, e)) denied_walk_ok denied_run

-- The file refuses all requests, behind a rule that rewrites each one to the same path.
abbrev looping : Context
looping = record context_of {
  sys = system_with (codes "RewriteEngine On\nRewriteRule ^ /x [L]\nRequire all denied\n");
  rx = record { compiles = λ _. true; exec = λ _ _. matched (some (0, 0) ∷ []) };
}

abbrev worker_of : Outcome (Code × (Worker × View)) → Worker
worker_of (ok (code, (w, v))) = w
worker_of _ = cold_worker

abbrev view_of : View → Outcome (Code × (Worker × View)) → View
view_of u (ok (code, (w, v))) = v
view_of u _ = u

abbrev looped : Outcome (Code × (Worker × View))
looped = execute looping loc cold_worker (request_for (codes "/x")) response

abbrev looped_view : View
looped_view = view_of (start_view looping (request_for (codes "/x")) response) looped

-- The request is let through when the passes are used up.
looped_run : looped ≡ ok (code_declined, (worker_of looped, looped_view))
unfolding execute build_merged_ctx lends load_file parse casecmp atoi cache_lookup cache_store
    join_path c_string make_room cache_evict merge_parsed memcmp_eq parse_rule_flags
looped_run = refl

execute-Declines_example :
    Declines looping loc
      (codes "/x")
      2
      true
      cold_worker
      (start_view looping (request_for (codes "/x")) response)
      (worker_of looped)
      looped_view
execute-Declines_example =
    execute-Declines looping loc cold_worker (worker_of looped) (request_for (codes "/x")) response
      looped_view looped_run

abbrev walking_context : Context
walking_context = record context_of { sys = sys }

execute-Ends_example :
    Ends walking_context loc
      (codes "/x")
      (execute walking_context loc worker (request_for (codes "/x")) response)
execute-Ends_example =
    execute-Ends walking_context loc worker (request_for (codes "/x")) response worker-IsCoherent

abbrev served : Outcome (Code × (Worker × View))
served = execute walking_context loc worker (request_for (codes "/x")) response

-- This request returns: the entry of the root's file agrees with it.
served_run :
    served
    ≡ ok (
      code_declined,
      (
        worker_of served,
        view_of (start_view walking_context (request_for (codes "/x")) response) served,
      ),
    )
unfolding execute build_merged_ctx lends dangles any_destroyed is_in load_file parse casecmp atoi
    cache_lookup cache_store join_path c_string make_room cache_evict merge_parsed memcmp_eq
served_run = refl

-- The request is left with the directives of the root's file, whose pool was destroyed.
freed_run : execute walking_context loc worker (request_for (codes "/blog/x")) response ≡ fault
unfolding execute build_merged_ctx lends dangles any_destroyed is_in load_file parse casecmp atoi
    cache_lookup cache_store join_path c_string make_room cache_evict merge_parsed memcmp_eq
freed_run = refl

-- The refusal of the file is not in a destroyed pool.
denied_live : dangles [] denied_walk ≡ false
unfolding build_merged_ctx lends dangles any_destroyed is_in load_file parse casecmp atoi
    cache_lookup cache_store join_path c_string make_room cache_evict merge_parsed memcmp_eq
denied_live = refl

file_below-le-file_room_example :
    (length (file_below (codes "/w") (codes "/x")) ≤ file_room (codes "/w") (codes "/x"))
    × (length (codes "/x") ≢ 0
        → length (file_below (codes "/w") (codes "/x")) + 1 ≤ file_room (codes "/w") (codes "/x"))
file_below-le-file_room_example = file_below-le-file_room (codes "/w") (codes "/x")
