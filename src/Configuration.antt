-- ===== src/Configuration.antt =====
-- src/ngx_http_htaccess_module.c: the directives of nginx's configuration, their settings in the
-- nested blocks, the start of a worker and the handler of a request.
pub mod Levels
pub mod Once
pub mod Life
use ngx_htaccess.Common.{
  ℕ, ◌≡◌, Bool, true, false, not, List, [], ◌∷◌, ◌++◌, ◌-◌, ◌^◌, map, Option, none, some,
  if◌then◌else◌, Bytes, codes, same_bytes, Outcome, ok, ◌>>=◌,
}
use ngx_htaccess.Cache.{Cache, cache_max_default, cache_init}
use ngx_htaccess.Engine.Conds.{Context, Code, code_declined}
use ngx_htaccess.Engine.Uris.{Http}
use ngx_htaccess.Engine.State.{Response}
use ngx_htaccess.Ngx.{Ngx, lower}
use ngx_htaccess.Pipeline.{LocConf, View, execute}
use ngx_htaccess.Walk.Load.{Worker}

abbrev pub value_or : {A : Type 0} → Option A → A → A
value_or none d = d
value_or (some a) d = a

-- `on` or `off`, whatever the case of the letters.
abbrev pub flag_of : Bytes → Option Bool
flag_of t =
    if same_bytes (map lower t) (codes "on")
    then some true
    else if same_bytes (map lower t) (codes "off")
    then some false
    else none

-- The slots and the merging macros of nginx; a field that was not set (NGX_CONF_UNSET, or NULL) is
-- none. A slot answers with the new value of the field, or none for an error.
pub record Slots (ngx : Ngx) : Type 0 where
  pub set_flag_slot : Option Bool → Bytes → Option Bool
  pub set_str_slot : Option Bytes → Bytes → Option Bytes
  pub set_num_slot : Option ℕ → Bytes → Option ℕ
  -- `ngx_conf_merge_value`, `ngx_conf_merge_str_value` and `ngx_conf_merge_uint_value`
  pub merge_value : Option Bool → Option Bool → Bool → Option Bool
  pub merge_str_value : Option Bytes → Option Bytes → Bytes → Option Bytes
  pub merge_uint_value : Option ℕ → Option ℕ → ℕ → Option ℕ
  -- A slot sets a field that was not set, and refuses one that was.
  pub set_flag_slot_lem :
      (o : Option Bool) (t : Bytes)
      → set_flag_slot o t ≡ elim o [ none ↦ flag_of t | some b ↦ none ]
  pub set_str_slot_lem :
      (o : Option Bytes) (t : Bytes) → set_str_slot o t ≡ elim o [ none ↦ some t | some b ↦ none ]
  pub set_num_slot_lem :
      (o : Option ℕ) (t : Bytes) → set_num_slot o t ≡ elim o [ none ↦ ngx.atoi t | some b ↦ none ]
  -- A field that was not set takes the value of the block around it, or the default.
  pub merge_value_lem :
      (c p : Option Bool) (d : Bool) → merge_value c p d ≡ some (value_or c (value_or p d))
  pub merge_str_value_lem :
      (c p : Option Bytes) (d : Bytes) → merge_str_value c p d ≡ some (value_or c (value_or p d))
  pub merge_uint_value_lem :
      (c p : Option ℕ) (d : ℕ) → merge_uint_value c p d ≡ some (value_or c (value_or p d))

-- `ngx_http_htaccess_main_conf_t`
pub record MainConf : Type 0 where
  pub cache_max_entries : Option ℕ

-- `ngx_http_htaccess_loc_conf_t` before it is merged; its `cache_max_entries` is not used.
pub record LocSettings : Type 0 where
  pub enable : Option Bool
  pub filename : Option Bytes
  pub cache_enable : Option Bool
  pub max_redirects : Option ℕ

-- HTACCESS_MAX_REDIRECTS_DEFAULT
abbrev pub max_redirects_default : ℕ
max_redirects_default = 10

unfoldable pub create_main_conf : MainConf
create_main_conf = record { cache_max_entries = some cache_max_default }

unfoldable pub create_loc_conf : LocSettings
create_loc_conf = record {
  enable = none;
  filename = none;
  cache_enable = none;
  max_redirects = none;
}

-- The directives of `ngx_http_htaccess_commands`, by the fields that their slots set.
pub data Command : Type 0 where
  htaccess htaccess_file htaccess_cache htaccess_cache_max_entries htaccess_max_redirects : Command

-- The configuration of a block while its directives are read.
pub record Settings : Type 0 where
  pub main : MainConf
  pub loc : LocSettings

-- Location settings as the handler reads them, where all are set.
pub as_loc_conf : LocSettings → Option LocConf
as_loc_conf s = by_all s.enable s.filename s.cache_enable s.max_redirects
  where
    by_all : Option Bool → Option Bytes → Option Bool → Option ℕ → Option LocConf
    by_all (some enable) (some filename) (some cache_enable) (some max_redirects) = some (record {
      enable = enable;
      filename = filename;
      cache_enable = cache_enable;
      max_redirects = max_redirects;
    })
    by_all _ _ _ _ = none

module _ (ngx : Ngx) (slots : Slots ngx) where
  open slots use {
    set_flag_slot, set_str_slot, set_num_slot, merge_value, merge_str_value, merge_uint_value,
  }

  abbrev pub set_enable : Settings → Option Bool → Option Settings
  set_enable s none = none
  set_enable s (some b) = some (record s { loc = record (s.loc) { enable = some b } })

  abbrev pub set_filename : Settings → Option Bytes → Option Settings
  set_filename s none = none
  set_filename s (some t) = some (record s { loc = record (s.loc) { filename = some t } })

  abbrev pub set_cache_enable : Settings → Option Bool → Option Settings
  set_cache_enable s none = none
  set_cache_enable s (some b) = some (record s { loc = record (s.loc) { cache_enable = some b } })

  abbrev pub set_cache_max_entries : Settings → Option ℕ → Option Settings
  set_cache_max_entries s none = none
  set_cache_max_entries s (some n) =
      some (record s { main = record { cache_max_entries = some n } })

  abbrev pub set_max_redirects : Settings → Option ℕ → Option Settings
  set_max_redirects s none = none
  set_max_redirects s (some n) = some (record s { loc = record (s.loc) { max_redirects = some n } })

  -- A directive with its argument.
  unfoldable pub set_command : Settings → Command × Bytes → Option Settings
  set_command s (htaccess, t) = set_enable s (set_flag_slot s.loc.enable t)
  set_command s (htaccess_file, t) = set_filename s (set_str_slot s.loc.filename t)
  set_command s (htaccess_cache, t) = set_cache_enable s (set_flag_slot s.loc.cache_enable t)
  set_command s (htaccess_cache_max_entries, t) =
      set_cache_max_entries s (set_num_slot s.main.cache_max_entries t)
  set_command s (htaccess_max_redirects, t) =
      set_max_redirects s (set_num_slot s.loc.max_redirects t)

  unfoldable pub merge_loc_conf : LocSettings → LocSettings → LocSettings
  merge_loc_conf prev conf = record {
    enable = merge_value conf.enable prev.enable false;
    filename = merge_str_value conf.filename prev.filename (codes ".htaccess");
    cache_enable = merge_value conf.cache_enable prev.cache_enable true;
    max_redirects = merge_uint_value conf.max_redirects prev.max_redirects max_redirects_default;
  }

-- The configuration that a worker reads, if there is one, and the handlers of the rewrite phase.
pub record Globals (H : Type 0) : Type 0 where
  pub htaccess_main_conf : Option MainConf
  pub handlers : List H

-- Whether `ngx_array_push` has memory decides; the result is whether NGX_OK is returned.
unfoldable pub init : {H : Type 0} → Bool → H → MainConf → Globals H → Globals H × Bool
init has_memory handler main g =
    if has_memory
    then (record { htaccess_main_conf = some main; handlers = g.handlers ++ (handler ∷ []) }, true)
    else (record { htaccess_main_conf = some main; handlers = g.handlers }, false)

-- NGX_CONF_UNSET_UINT is the greatest number of 64 bits.
abbrev pub max_of : Option MainConf → ℕ
max_of none = cache_max_default
max_of (some m) = value_or m.cache_max_entries (2 ^ 64 - 1)

-- The cache of a worker that starts.
unfoldable pub init_process : Option MainConf → Cache
unfolding cache_init
init_process main = cache_init (max_of main)

-- What a request comes to: the code, the worker, the request and its response.
abbrev pub Handled : Type 0
Handled = Outcome (Code × (Worker × (Http × Response)))

-- The variables of `htaccess_execute` are gone when it returns.
abbrev pub handled : Code × (Worker × View) → Handled
handled (code, (w, v)) = ok (code, (w, (v.http, v.response)))

unfoldable pub handler : Context → LocConf → Worker → Http → Response → Handled
unfolding execute
handler cx loc w http r =
    if not loc.enable
    then ok (code_declined, (w, (http, r)))
    else execute cx loc w http r >>= handled
