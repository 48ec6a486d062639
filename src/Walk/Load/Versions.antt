-- ===== src/Walk/Load/Versions.antt =====
-- Files that change: the cache holds what a file said at a time and a size.
use ngx_htaccess.Cache.Invariant.{IsValid, cache_lookup-IsValid}
use ngx_htaccess.Cache.Keeps.{All-cache_lookup, All-cache_store}
use ngx_htaccess.Cache.Lookup.{IsFresh}
use ngx_htaccess.Cache.{Cache, Entry, cache_lookup}
use ngx_htaccess.Common.{
  ℕ, ◌+◌, ◌≡◌, refl, sym, ◌∙◌, Bool, true, false, List, [], ◌∷◌, Option, none, some, Bytes, All,
  Outcome, ok, error, fault, out_of_fuel, ◌>>=◌,
}
use ngx_htaccess.Directives.{FileInfo, ParsedFile}
use ngx_htaccess.Ngx.{Ngx}
use ngx_htaccess.Parser.Parse.{parse}
use ngx_htaccess.System.{System, Contents, unopened, unreadable, content}
use ngx_htaccess.Walk.Load.Views.{
  view, answer_of, parse_view, open_view, file_view, parse_view-pool, IsTrue, IsCoherent,
}
use ngx_htaccess.Walk.Load.{
  Worker, Loaded, loaded, declined, parse_result, absent_entry, present_entry, drop_pool,
  parse_file, store, after_parse, load_missed, load_answered, load_file,
}

-- The worker of a result has a property.
abbrev pub Leaves : {A : Type 0} → (Worker → Type 0) → Outcome (Worker × A) → Type 0
Leaves Q (ok (w, r)) = Q w
Leaves Q _ = Unit

module _ (ngx : Ngx) (contents : Bytes → ℕ → ℕ → Contents) where
  -- A file that was last changed at a time and has a size has the contents of that version.
  abbrev pub IsVersioned : System → Type 0
  IsVersioned sys =
      (path : Bytes) (fi : FileInfo)
      → sys.stat path ≡ some fi
      → sys.open_file path ≡ contents path fi.mtime fi.size

  -- An entry that is there holds the parsed file of its version.
  abbrev pub IsRecorded : Entry → Type 0
  IsRecorded e =
      e.absent ≡ false
      → (pool : ℕ) × (bytes : Bytes) × (f : ParsedFile) × (contents e.path e.mtime e.size
          ≡ content bytes)
        × (e.parsed ≡ some f)
        × (parse ngx pool bytes ≡ ok f)

  -- The cache of the worker is valid, and its entries are recorded.
  pub record IsKept (w : Worker) : Type 0 where
    pub valid : IsValid w.cache
    pub recorded : All IsRecorded w.cache.lru

  module _ (sys : System) (versioned : IsVersioned sys) where
    open sys use {stat, open_file, has_memory}

    -- A recorded entry that agrees with the file holds what the file says now.
    IsRecorded-IsTrue : (e : Entry) → IsRecorded e → IsTrue ngx sys e
    unfolding file_view open_view parse_view
    IsRecorded-IsTrue e h fresh = by_state (stat e.path) refl fresh
      where
        by_state :
            (info : Option FileInfo)
            → stat e.path ≡ info
            → IsFresh e info
            → view (answer_of e) ≡ file_view ngx sys e.path
        by_state none q absent = rw (q, absent, file_view) refl
        by_state (some fi) q (there, mtime, size) =
            let (pool, bytes, f, version, parsed, read) = h there in
            let opened : open_file e.path ≡ content bytes =
              versioned e.path fi q ∙ cc (mtime, size, version) in
            rw
              (
                q,
                there,
                parsed,
                opened,
                file_view,
                open_view,
                ← parse_view-pool ngx sys pool bytes,
                read,
                parse_view,
              )
              refl

    pub IsKept-IsCoherent : (w : Worker) → IsKept w → IsCoherent ngx sys w
    IsKept-IsCoherent w k = record { valid = k.valid; truth = all w.cache.lru k.recorded }
      where
        all : (l : List Entry) → All IsRecorded l → All (IsTrue ngx sys) l
        all [] h = tt
        all (e ∷ l) h = (IsRecorded-IsTrue e h.0, all l h.1)

    store-IsKept :
        (enable : Bool) (e : Entry) (w : Worker)
        → IsKept w
        → IsRecorded e
        → (w' : Worker) × (store ngx sys enable e w ≡ ok w') × IsKept w'
    unfolding store
    store-IsKept false e w k t = (w, refl, k)
    store-IsKept true e w k t =
        let (c', stored, v, all) =
          All-cache_store IsRecorded (has_memory e.path) e w.cache k.valid t k.recorded in
        (record w { cache = c' }, rw (stored, store) refl, record { valid = v; recorded = all })

    Leaves-store :
        (enable : Bool) (e : Entry) (w : Worker) (r : Loaded)
        → IsKept w
        → IsRecorded e
        → Leaves IsKept (store ngx sys enable e w >>= λ w'. ok (w', r))
    Leaves-store enable e w r k t =
        let (w', stored, k') = store-IsKept enable e w k t in rw stored k'

    drop_pool-IsKept : (w : Worker) → IsKept w → IsKept (drop_pool w)
    drop_pool-IsKept w k = record {
      valid = record {
        positive = k.valid.positive;
        counted = k.valid.counted;
        bounded = k.valid.bounded;
      };
      recorded = k.recorded;
    }

    Leaves-load_missed :
        (enable : Bool) (path : Bytes) (w : Worker) (info : Option FileInfo)
        → stat path ≡ info
        → IsKept w
        → Leaves IsKept (load_missed ngx sys enable path w info)
    unfolding load_missed parse_file after_parse
    Leaves-load_missed enable path w none q k =
        Leaves-store enable (absent_entry path 0 0) w declined k (λ e. absurd (cc e))
    Leaves-load_missed enable path w (some fi) q k = opened (open_file path) refl
      where
        parsed_file :
            (bytes : Bytes)
            → open_file path ≡ content bytes
            → (o : Outcome ParsedFile) → parse ngx w.next_pool bytes ≡ o
            → Leaves IsKept (parse_result o >>= λ r. after_parse ngx sys enable path fi w r)
        parsed_file bytes e (ok f) p =
            Leaves-store enable (present_entry path fi (some f))
              (record w { next_pool = w.next_pool + 1 }) (loaded (some f))
              (record { valid = k.valid; recorded = k.recorded })
              (λ _. (w.next_pool, bytes, f, sym (versioned path fi q) ∙ e, refl, p))
        parsed_file bytes e error p = drop_pool-IsKept w k
        parsed_file bytes e fault p = tt
        parsed_file bytes e out_of_fuel p = tt

        opened :
            (c : Contents)
            → open_file path ≡ c
            → Leaves IsKept (
                parse_file ngx sys w.next_pool path >>= λ r. after_parse ngx sys enable path fi w r)
        opened unopened e =
            rw (e, parse_file)
              (Leaves-store enable (absent_entry path fi.mtime fi.size) (drop_pool w) declined
                (drop_pool-IsKept w k) (λ e. absurd (cc e)))
        opened unreadable e = rw (e, parse_file) (drop_pool-IsKept w k)
        opened (content bytes) e =
            rw (e, parse_file) (parsed_file bytes e (parse ngx w.next_pool bytes) refl)

    Leaves-load_answered :
        (path : Bytes) (w : Worker) (r : Cache × Option Entry)
        → IsKept (record w { cache = r.0 })
        → Leaves IsKept (load_answered ngx sys path w r)
    unfolding load_answered
    Leaves-load_answered path w (c, none) k =
        Leaves-load_missed true path (record w { cache = c }) (stat path) refl k
    Leaves-load_answered path w (c, some e) k = k

    -- A load leaves the cache valid, and its entries recorded.
    pub Leaves-load_file :
        (enable : Bool) (path : Bytes) (w : Worker)
        → IsKept w
        → Leaves IsKept (load_file ngx sys enable path w)
    unfolding load_file
    Leaves-load_file false path w k = Leaves-load_missed false path w (stat path) refl k
    Leaves-load_file true path w k =
        Leaves-load_answered path w (cache_lookup stat w.cache path true) (record {
          valid = cache_lookup-IsValid stat w.cache path true k.valid;
          recorded = All-cache_lookup IsRecorded stat w.cache path k.recorded;
        })
