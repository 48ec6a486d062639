-- ===== src/Walk/Load/Views.antt =====
-- What a load says of a file, read with no cache, and the caches that agree with it.
use ngx_htaccess.Cache.Invariant.{IsValid}
use ngx_htaccess.Cache.Lookup.{IsFresh}
use ngx_htaccess.Cache.{Entry}
use ngx_htaccess.Common.{
  ℕ, suc, ◌≡◌, refl, List, Option, none, some, if◌then◌else◌, Bytes, length, All, Outcome, ok,
  error, fault, out_of_fuel, ◌>>=◌, IsDone,
}
use ngx_htaccess.Directives.{Directive, FileInfo, ParsedFile}
use ngx_htaccess.Ngx.{Ngx}
use ngx_htaccess.Parser.Parse.Total.{parse-IsDone}
use ngx_htaccess.Parser.Parse.{Parser, initial, parse_loop, parse}
use ngx_htaccess.System.{System, Contents, unopened, unreadable, content}
use ngx_htaccess.Walk.Load.{Worker, Loaded, loaded, declined, failed}

-- What a load says of a file: its directives, that there is none, or that it was refused. An entry
-- that is there but holds no file does not occur.
abbrev pub view : Loaded → Outcome (Option (List Directive))
view (loaded (some f)) = ok (some f.directives)
view (loaded none) = out_of_fuel
view declined = ok none
view failed = error

-- What a cache entry answers.
abbrev pub answer_of : Entry → Loaded
answer_of e = if e.absent then declined else loaded e.parsed

module _ (ngx : Ngx) (sys : System) where
  open sys use {stat, open_file, has_memory}

  -- The directives in the bytes of a file.
  unfoldable pub parse_view : Outcome ParsedFile → Outcome (Option (List Directive))
  parse_view (ok f) = ok (some f.directives)
  parse_view error = error
  parse_view fault = fault
  parse_view out_of_fuel = out_of_fuel

  unfoldable pub open_view : Contents → Outcome (Option (List Directive))
  open_view unopened = ok none
  open_view unreadable = error
  open_view (content bytes) = parse_view (parse ngx 0 bytes)

  -- The file of a path as it stands in the file system, read with no cache.
  unfoldable pub file_view : Bytes → Outcome (Option (List Directive))
  file_view path = elim (stat path) [ none ↦ ok none | some fi ↦ open_view (open_file path) ]

  parse_view-IsDone : (m : Outcome ParsedFile) → IsDone m → IsDone (parse_view m)
  unfolding parse_view
  parse_view-IsDone (ok f) h = tt
  parse_view-IsDone error h = tt
  parse_view-IsDone fault h = tt
  parse_view-IsDone out_of_fuel h = h

  -- The reading with no cache ends.
  pub file_view-IsDone : (path : Bytes) → IsDone (file_view path)
  unfolding file_view open_view
  file_view-IsDone path = by_state (stat path)
    where
      opened : (c : Contents) → IsDone (open_view c)
      opened unopened = tt
      opened unreadable = tt
      opened (content bytes) = parse_view-IsDone (parse ngx 0 bytes) (parse-IsDone ngx 0 bytes)

      by_state :
          (info : Option FileInfo)
          → IsDone (elim info [ none ↦ ok none | some fi ↦ open_view (open_file path) ])
      by_state none = tt
      by_state (some fi) = opened (open_file path)

  -- An entry that agrees with the file in time and size holds what the file says. A file whose bytes
  -- change while these stay the same would break this.
  abbrev pub IsTrue : Entry → Type 0
  IsTrue e = IsFresh e (stat e.path) → view (answer_of e) ≡ file_view e.path

  -- The cache of the worker is valid and true.
  pub record IsCoherent (w : Worker) : Type 0 where
    pub valid : IsValid w.cache
    pub truth : All IsTrue w.cache.lru

  -- The load gives what the file system says and keeps the cache coherent.
  abbrev pub Agrees : Bytes → Outcome (Worker × Loaded) → Type 0
  Agrees path (ok (w, r)) = (view r ≡ file_view path) × IsCoherent w
  Agrees path fault = file_view path ≡ fault
  Agrees path _ = ⊥

  -- The pool's number stands in the result only.
  pub parse_view-pool :
      (pool : ℕ) (bytes : Bytes)
      → parse_view (parse ngx pool bytes) ≡ parse_view (parse ngx 0 bytes)
  unfolding parse
  parse_view-pool pool bytes = same (parse_loop ngx (suc (length bytes)) bytes initial)
    where
      same :
          (m : Outcome Parser)
          → parse_view (
              ◌>>=◌ {B = ParsedFile} m
                (λ p. ok (record { directives = p.gathered.directives; pool = pool })))
            ≡ parse_view (
                ◌>>=◌ {B = ParsedFile} m
                  (λ p. ok (record { directives = p.gathered.directives; pool = 0 })))
      same (ok p) = unfold parse_view in refl
      same error = refl
      same fault = refl
      same out_of_fuel = refl
