-- ===== src/Walk/Load.antt =====
-- htaccess_parse_file and htaccess_load_file: the parsed file of a path, from the cache or from the
-- file system.
pub mod Views
pub mod Transparent
pub mod Versions
use ngx_htaccess.Cache.{Cache, Entry, cache_lookup, cache_store}
use ngx_htaccess.Common.{
  ℕ, ◌+◌, Bool, true, false, List, [], ◌∷◌, Option, none, some, if◌then◌else◌, Bytes, Outcome, ok,
  error, fault, out_of_fuel, ◌>>=◌,
}
use ngx_htaccess.Directives.{FileInfo, ParsedFile}
use ngx_htaccess.Ngx.{Ngx}
use ngx_htaccess.Parser.Parse.{parse}
use ngx_htaccess.System.{System, Contents, unopened, unreadable, content}

-- The cache of the worker, and the number of the next pool.
pub record Worker : Type 0 where
  pub cache : Cache
  pub next_pool : ℕ

-- A result code with `*parsed`: NGX_OK with the pointer of the cache or the parser, NGX_DECLINED or
-- NGX_ERROR.
pub data Loaded : Type 0 where
  loaded : Option ParsedFile → Loaded
  declined failed : Loaded

-- The result codes of the parser; a fault stays a fault.
abbrev pub parse_result : Outcome ParsedFile → Outcome Loaded
parse_result (ok f) = ok (loaded (some f))
parse_result error = ok failed
parse_result fault = fault
parse_result out_of_fuel = out_of_fuel

-- An entry without a file.
abbrev pub absent_entry : Bytes → ℕ → ℕ → Entry
absent_entry path mtime size = record {
  path = path;
  mtime = mtime;
  size = size;
  absent = true;
  parsed = none;
}

abbrev pub present_entry : Bytes → FileInfo → Option ParsedFile → Entry
present_entry path fi parsed = record {
  path = path;
  mtime = fi.mtime;
  size = fi.size;
  absent = false;
  parsed = parsed;
}

-- `ngx_destroy_pool` on the pool of a file that was not parsed.
abbrev pub drop_pool : Worker → Worker
drop_pool w = record {
  cache = record (w.cache) { destroyed = w.next_pool ∷ w.cache.destroyed };
  next_pool = w.next_pool + 1;
}

module _ (ngx : Ngx) (sys : System) where
  open sys use {stat, open_file, has_memory}

  unfoldable pub parse_file : ℕ → Bytes → Outcome Loaded
  parse_file pool path = elim (open_file path) [
    | unopened ↦ ok declined
    | unreadable ↦ ok failed
    | content bytes ↦ parse_result (parse ngx pool bytes)
  ]

  -- `if (conf->cache_enable) htaccess_cache_store(...)`, whose result is not read.
  unfoldable pub store : Bool → Entry → Worker → Outcome Worker
  store false e w = ok w
  store true e w = elim (cache_store (has_memory e.path) e w.cache) [
    | none ↦ out_of_fuel
    | some r ↦ ok (record w { cache = r.0 })
  ]

  -- What follows `htaccess_parse_file`, by its result.
  unfoldable pub after_parse : Bool → Bytes → FileInfo → Worker → Loaded → Outcome (Worker × Loaded)
  unfolding store
  after_parse enable path fi w (loaded parsed) =
      store enable (present_entry path fi parsed) (record w { next_pool = w.next_pool + 1 })
      >>= λ w'. ok (w', loaded parsed)
  after_parse enable path fi w declined =
      store enable (absent_entry path fi.mtime fi.size) (drop_pool w) >>= λ w'. ok (w', declined)
  after_parse enable path fi w failed = ok (drop_pool w, failed)

  -- Behind a lookup that answered nothing, by what `ngx_file_info` says.
  unfoldable pub load_missed : Bool → Bytes → Worker → Option FileInfo → Outcome (Worker × Loaded)
  unfolding parse_file after_parse store
  load_missed enable path w none =
      store enable (absent_entry path 0 0) w >>= λ w'. ok (w', declined)
  load_missed enable path w (some fi) =
      parse_file w.next_pool path >>= λ r. after_parse enable path fi w r

  -- By the answer of the lookup.
  unfoldable pub load_answered : Bytes → Worker → Cache × Option Entry → Outcome (Worker × Loaded)
  unfolding load_missed
  load_answered path w (c, none) = load_missed true path (record w { cache = c }) (stat path)
  load_answered path w (c, some e) =
      ok (record w { cache = c }, (if e.absent then declined else loaded e.parsed))

  unfoldable pub load_file : Bool → Bytes → Worker → Outcome (Worker × Loaded)
  unfolding load_answered load_missed
  load_file false path w = load_missed false path w (stat path)
  load_file true path w = load_answered path w (cache_lookup stat w.cache path true)
