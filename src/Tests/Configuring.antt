-- ===== src/Tests/Configuring.antt =====
-- The configuration, and the life of a worker.
use ngx_htaccess.Common.{
  ap, ◌==◌, if◌then◌else◌, Bool, same_bytes, ok, ℕ, ◌≡◌, ◌≢◌, refl, true, false, List, [], ◌∷◌,
  Option, none, some, Bytes, codes, All, memcmp_eq,
}
use ngx_htaccess.Configuration.{Handled, init_process}
use ngx_htaccess.Configuration.Levels.{innermost, settled, merge_levels, merge_levels-settled}
use ngx_htaccess.Configuration.Life.{
  Visit, Reaches, starts, goes_on, started, serve, serve_with, FreesOn, seen, EndsWell,
  Reaches-EndsWell, Reaches-seen,
}
use ngx_htaccess.Configuration.Once.{created, IsDistinct, set_commands, set_commands-IsDistinct}
use ngx_htaccess.Configuration.{
  value_or, flag_of, Slots, MainConf, LocSettings, Settings, create_main_conf, create_loc_conf,
  as_loc_conf, Command, htaccess, htaccess_cache_max_entries, htaccess_max_redirects, set_command,
  init, handler,
}
use ngx_htaccess.Engine.Conds.{number, code_declined}
use ngx_htaccess.Engine.State.{unmatched}
use ngx_htaccess.Tests.Engines.{request, state, http}
use ngx_htaccess.Tests.Guarding.{response}
use ngx_htaccess.Tests.Nginx.{nginx, casecmp, atoi, decimal}
use ngx_htaccess.Tests.Walking.{root_path}
use ngx_htaccess.System.{System, Contents, unopened, content}
use ngx_htaccess.Directives.{FileInfo}
use ngx_htaccess.Walk.Load.{Worker, load_file}
use ngx_htaccess.Walk.Load.Versions.{IsVersioned}
use ngx_htaccess.Walk.Build.{lends, dangles, any_destroyed, is_in, build_merged_ctx}
use ngx_htaccess.Walk.Merge.{merge_parsed}
use ngx_htaccess.Walk.Paths.{join_path, c_string}
use ngx_htaccess.Cache.{cache_lookup, cache_store, make_room, cache_evict}
use ngx_htaccess.Parser.Parse.{parse}
use ngx_htaccess.Pipeline.Cached.{SameOrFault}
use ngx_htaccess.Pipeline.{execute}
use ngx_htaccess.Engine.Headers.{apply_headers}

abbrev slots : Slots nginx
slots = record {
  set_flag_slot = λ o t. elim o [ none ↦ flag_of t | some b ↦ none ];
  set_str_slot = λ o t. elim o [ none ↦ some t | some b ↦ none ];
  set_num_slot = λ o t. elim o [ none ↦ atoi t | some b ↦ none ];
  merge_value = λ c p d. some (value_or c (value_or p d));
  merge_str_value = λ c p d. some (value_or c (value_or p d));
  merge_uint_value = λ c p d. some (value_or c (value_or p d));
  set_flag_slot_lem = λ o t. refl;
  set_str_slot_lem = λ o t. refl;
  set_num_slot_lem = λ o t. refl;
  merge_value_lem = λ c p d. refl;
  merge_str_value_lem = λ c p d. refl;
  merge_uint_value_lem = λ c p d. refl;
}

-- `htaccess on;` in the server, `htaccess_max_redirects 3;` in the location.
abbrev server : LocSettings
server = record create_loc_conf { enable = some true }

abbrev location : LocSettings
location = record create_loc_conf { max_redirects = some 3 }

merge_levels-settled_example :
    as_loc_conf (merge_levels nginx slots create_loc_conf (server ∷ location ∷ []))
    ≡ some (settled create_loc_conf (server ∷ location ∷ []))
merge_levels-settled_example =
    merge_levels-settled nginx slots create_loc_conf server (location ∷ [])

settled_run :
    settled create_loc_conf (server ∷ location ∷ [])
    ≡ record { enable = true; filename = codes ".htaccess"; cache_enable = true; max_redirects = 3 }
unfolding create_loc_conf innermost
settled_run = refl

abbrev commands : List (Command × Bytes)
commands = (htaccess, codes "On") ∷ (htaccess_max_redirects, codes "3") ∷ []

abbrev commanded : Settings
commanded = record {
  main = create_main_conf;
  loc = record create_loc_conf { enable = some true; max_redirects = some 3 };
}

commands_run : set_commands nginx slots created commands ≡ some commanded
unfolding set_commands set_command create_main_conf create_loc_conf atoi decimal memcmp_eq
commands_run = refl

set_commands-IsDistinct_example :
    IsDistinct commands × All (λ c. c.0 ≢ htaccess_cache_max_entries) commands
set_commands-IsDistinct_example =
    set_commands-IsDistinct nginx slots commands commanded commands_run

-- The limit of the cache cannot be set.
max_entries_run : set_command nginx slots created (htaccess_cache_max_entries, codes "5") ≡ none
unfolding set_command create_main_conf
max_entries_run = refl

init_run :
    init {H = ℕ} true 7 create_main_conf (record { htaccess_main_conf = none; handlers = [] })
    ≡ (record { htaccess_main_conf = some create_main_conf; handlers = 7 ∷ [] }, true)
unfolding init
init_run = refl

-- The file of the document root switches the rewriting on until it is changed at time 2.
abbrev contents : Bytes → ℕ → ℕ → Contents
contents path mtime size =
    if same_bytes path root_path
    then (if mtime == 1
        then content (codes "RewriteEngine On\n")
        else content (codes "Require all denied\n"))
    else unopened

abbrev info_at : ℕ → FileInfo
info_at t = record { mtime = t; size = 10; is_dir = false; is_link = false }

abbrev sys_at : ℕ → System
sys_at t = record {
  stat = λ path. if same_bytes path root_path then some (info_at t) else none;
  open_file = λ path. contents path t 10;
  crypt = λ _ _. none;
  has_memory = λ _. true;
}

sys_at-IsVersioned : (t : ℕ) → IsVersioned nginx contents (sys_at t)
sys_at-IsVersioned t path fi h = by_path (same_bytes path root_path) h
  where
    by_path :
        (b : Bool)
        → (if b then some (info_at t) else none) ≡ some fi
        → contents path t 10 ≡ contents path fi.mtime fi.size
    by_path true h = let same : info_at t ≡ fi = cc h in ap (λ i. contents path i.mtime i.size) same
    by_path false h = absurd (cc h)

abbrev visit_at : ℕ → Visit
visit_at t = record {
  sys = sys_at t;
  loc = record {
    enable = true;
    filename = codes ".htaccess";
    cache_enable = true;
    max_redirects = 10;
  };
  http = http;
  response = response;
  rx = record { compiles = λ _. true; exec = λ _ _. unmatched };
  root = codes "/w";
  c_text = λ s. s;
  request = request;
  state = state;
}

abbrev main : Option MainConf
main = some create_main_conf

abbrev cold : Worker
cold = started nginx contents main 0

abbrev worker_of : Handled → Worker
worker_of (ok (code, (w, s))) = w
worker_of _ = cold

-- The worker after a request at time 1.
abbrev warm : Worker
warm = worker_of (serve nginx contents (visit_at 1) cold)

served_run : serve nginx contents (visit_at 1) cold ≡ ok (code_declined, (warm, (http, response)))
unfolding handler execute build_merged_ctx lends load_file parse casecmp atoi cache_lookup
    cache_store join_path c_string make_room cache_evict merge_parsed memcmp_eq init_process
    create_main_conf apply_headers
served_run = refl

reached : Reaches nginx contents main warm
reached =
    goes_on cold warm (visit_at 1) code_declined (http, response) (starts 0) (sys_at-IsVersioned 1)
      served_run

Reaches-EndsWell_example :
    EndsWell nginx contents (sys_at 2) (serve nginx contents (visit_at 2) warm)
Reaches-EndsWell_example =
    Reaches-EndsWell nginx contents main warm (visit_at 2) reached (sys_at-IsVersioned 2)

Reaches-seen_example :
    SameOrFault
      (FreesOn nginx contents (visit_at 2) warm)
      (seen (serve_with nginx contents true (visit_at 2) warm))
      (seen (serve_with nginx contents false (visit_at 2) (started nginx contents main 5)))
Reaches-seen_example =
    Reaches-seen nginx contents main warm (visit_at 2) 5 reached (sys_at-IsVersioned 2)

-- The worker after a request at time 2.
abbrev warmer : Worker
warmer = worker_of (serve nginx contents (visit_at 2) warm)

-- The changed file, found out of date, refuses the request.
changed_run : serve nginx contents (visit_at 2) warm ≡ ok (number 403, (warmer, (http, response)))
unfolding handler execute build_merged_ctx lends dangles any_destroyed is_in load_file parse casecmp
    atoi cache_lookup cache_store join_path c_string make_room cache_evict merge_parsed memcmp_eq
    init_process create_main_conf apply_headers
changed_run = refl
