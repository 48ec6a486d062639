-- ===== src/Walk/Load/Transparent.antt =====
-- The cache changes nothing of what htaccess_load_file gives.
use ngx_htaccess.Cache.Find.{Unlinks}
use ngx_htaccess.Cache.Invariant.{IsValid, cache_lookup-IsValid}
use ngx_htaccess.Cache.Keeps.{All-cache_lookup, All-Unlinks, All-cache_store}
use ngx_htaccess.Cache.Lookup.{IsFresh, cache_lookup-IsFresh}
use ngx_htaccess.Cache.{Cache, Entry, cache_lookup}
use ngx_htaccess.Common.{
  subst, ℕ, ◌+◌, ◌≡◌, refl, sym, ap, ◌∙◌, Bool, true, false, List, Option, none, some, Bytes, All,
  Outcome, ok, error, fault, out_of_fuel, ◌>>=◌, IsDone,
}
use ngx_htaccess.Directives.{FileInfo, ParsedFile}
use ngx_htaccess.Ngx.{Ngx}
use ngx_htaccess.Parser.Parse.Total.{parse-IsDone}
use ngx_htaccess.Parser.Parse.{parse}
use ngx_htaccess.System.{System, Contents, unopened, unreadable, content}
use ngx_htaccess.Walk.Load.{
  Worker, Loaded, loaded, declined, failed, parse_result, absent_entry, present_entry, drop_pool,
  parse_file, store, after_parse, load_missed, load_answered, load_file,
}
use ngx_htaccess.Walk.Load.Views.{
  parse_view, open_view, file_view, IsTrue, Agrees, parse_view-pool, IsCoherent, view, answer_of,
}

module _ (ngx : Ngx) (sys : System) where
  open sys use {stat, open_file, has_memory}

  Agrees-ok :
      (path : Bytes) (m : Outcome (Worker × Loaded)) (w : Worker) (r : Loaded)
      → m ≡ ok (w, r)
      → view r ≡ file_view ngx sys path
      → IsCoherent ngx sys w
      → Agrees ngx sys path m
  Agrees-ok path m w r q same c = rw q (same, c)

  -- A store of a true entry keeps the cache coherent.
  store-IsCoherent :
      (enable : Bool) (e : Entry) (w : Worker)
      → IsCoherent ngx sys w
      → IsTrue ngx sys e
      → (w' : Worker) × (store ngx sys enable e w ≡ ok w') × IsCoherent ngx sys w'
  unfolding store
  store-IsCoherent false e w c t = (w, refl, c)
  store-IsCoherent true e w c t =
      let (c', stored, v, all) =
        All-cache_store (IsTrue ngx sys) (has_memory e.path) e w.cache c.valid t c.truth in
      (record w { cache = c' }, rw (stored, store) refl, record { valid = v; truth = all })

  Agrees-store :
      (enable : Bool) (e : Entry) (w : Worker) (path : Bytes) (r : Loaded)
      → IsCoherent ngx sys w
      → IsTrue ngx sys e
      → view r ≡ file_view ngx sys path
      → Agrees ngx sys path (store ngx sys enable e w >>= λ w'. ok (w', r))
  Agrees-store enable e w path r c t same =
      let (w', stored, c') = store-IsCoherent enable e w c t in
      Agrees-ok path _ w' r (rw stored refl) same c'

  -- The pool of a refused file is destroyed, and the queue stays.
  drop_pool-IsCoherent : (w : Worker) → IsCoherent ngx sys w → IsCoherent ngx sys (drop_pool w)
  drop_pool-IsCoherent w c = record {
    valid = record {
      positive = c.valid.positive;
      counted = c.valid.counted;
      bounded = c.valid.bounded;
    };
    truth = c.truth;
  }

  absent_entry-IsTrue :
      (path : Bytes) (mtime size : ℕ) → IsTrue ngx sys (absent_entry path mtime size)
  unfolding file_view
  absent_entry-IsTrue path mtime size = by_state (stat path) refl
    where
      by_state :
          (info : Option FileInfo)
          → stat path ≡ info
          → IsFresh (absent_entry path mtime size) info
          → ok none ≡ file_view ngx sys path
      by_state none q h = rw (q, file_view) refl
      by_state (some fi) q h = absurd (cc h.0)

  Agrees-after_parse :
      (enable : Bool) (path : Bytes) (fi : FileInfo) (w : Worker) (r : Loaded)
      → IsCoherent ngx sys w
      → view r ≡ file_view ngx sys path
      → Agrees ngx sys path (after_parse ngx sys enable path fi w r)
  unfolding after_parse
  Agrees-after_parse enable path fi w (loaded parsed) c same =
      Agrees-store enable (present_entry path fi parsed) (record w { next_pool = w.next_pool + 1 })
        path (loaded parsed) (record { valid = c.valid; truth = c.truth }) (λ _. same) same
  Agrees-after_parse enable path fi w declined c same =
      Agrees-store enable (absent_entry path fi.mtime fi.size) (drop_pool w) path declined
        (drop_pool-IsCoherent w c) (absent_entry-IsTrue path fi.mtime fi.size) same
  Agrees-after_parse enable path fi w failed c same = (same, drop_pool-IsCoherent w c)

  -- What the parse of a file's bytes says, by its result code.
  Agrees-parse_result :
      (enable : Bool) (path : Bytes) (fi : FileInfo) (w : Worker) (m : Outcome ParsedFile)
      → IsCoherent ngx sys w
      → IsDone m
      → parse_view ngx sys m ≡ file_view ngx sys path
      → Agrees ngx sys path (parse_result m >>= λ r. after_parse ngx sys enable path fi w r)
  unfolding parse_view
  Agrees-parse_result enable path fi w (ok f) c d same =
      Agrees-after_parse enable path fi w (loaded (some f)) c same
  Agrees-parse_result enable path fi w error c d same =
      Agrees-after_parse enable path fi w failed c same
  Agrees-parse_result enable path fi w fault c d same = sym same
  Agrees-parse_result enable path fi w out_of_fuel c d same = absurd d

  Agrees-parse_file :
      (enable : Bool) (path : Bytes) (fi : FileInfo) (w : Worker) (bytes : Contents)
      → open_file path ≡ bytes
      → IsCoherent ngx sys w
      → open_view ngx sys bytes ≡ file_view ngx sys path
      → Agrees ngx sys path
          (parse_file ngx sys w.next_pool path >>= λ r. after_parse ngx sys enable path fi w r)
  unfolding parse_file open_view
  Agrees-parse_file enable path fi w unopened q c same =
      rw (q, parse_file) (Agrees-after_parse enable path fi w declined c same)
  Agrees-parse_file enable path fi w unreadable q c same =
      rw (q, parse_file) (Agrees-after_parse enable path fi w failed c same)
  Agrees-parse_file enable path fi w (content bytes) q c same =
      rw (q, parse_file)
        (Agrees-parse_result enable path fi w (parse ngx w.next_pool bytes) c
          (parse-IsDone ngx w.next_pool bytes) (parse_view-pool ngx sys w.next_pool bytes ∙ same))

  Agrees-load_missed :
      (enable : Bool) (path : Bytes) (w : Worker) (info : Option FileInfo)
      → stat path ≡ info
      → IsCoherent ngx sys w
      → Agrees ngx sys path (load_missed ngx sys enable path w info)
  unfolding load_missed file_view
  Agrees-load_missed enable path w none q c =
      Agrees-store enable (absent_entry path 0 0) w path declined c (absent_entry-IsTrue path 0 0)
        (rw (q, file_view) refl)
  Agrees-load_missed enable path w (some fi) q c =
      Agrees-parse_file enable path fi w (open_file path) refl c (rw (q, file_view) refl)

  Agrees-load_answered :
      (path : Bytes) (w : Worker) (r : Cache × Option Entry)
      → cache_lookup stat w.cache path true ≡ r
      → IsCoherent ngx sys w
      → Agrees ngx sys path (load_answered ngx sys path w r)
  unfolding load_answered
  Agrees-load_answered path w (c', none) q c =
      Agrees-load_missed true path (record w { cache = c' }) (stat path) refl (kept q)
    where
      kept :
          cache_lookup stat w.cache path true ≡ (c', none)
          → IsCoherent ngx sys (record w { cache = c' })
      kept q = record {
        valid = subst (λ r. IsValid r.0) q (cache_lookup-IsValid stat w.cache path true c.valid);
        truth =
            subst (λ r. All (IsTrue ngx sys) r.0.lru) q
              (All-cache_lookup (IsTrue ngx sys) stat w.cache path c.truth);
      }
  Agrees-load_answered path w (c', some e) q c =
      let (fresh, found) = cache_lookup-IsFresh stat w.cache path true (ap (λ r. r.1) q) in
      (
        answered found.1 fresh,
        record {
          valid = subst (λ r. IsValid r.0) q (cache_lookup-IsValid stat w.cache path true c.valid);
          truth =
              subst (λ r. All (IsTrue ngx sys) r.0.lru) q
                (All-cache_lookup (IsTrue ngx sys) stat w.cache path c.truth);
        },
      )
    where
      answered :
          {rest : List Entry}
          → Unlinks path w.cache.lru e rest
          → IsFresh e (stat path)
          → view (answer_of e) ≡ file_view ngx sys path
      answered u fresh =
          subst (λ p. view (answer_of e) ≡ file_view ngx sys p) u.path_is
            (All-Unlinks (IsTrue ngx sys) path w.cache e _ u c.truth
              (subst (λ p. IsFresh e (stat p)) (sym u.path_is) fresh))

  -- On a worker whose cache is valid and whose entries hold what the files say that they agree with in
  -- time and size, htaccess_load_file gives what reading the file with no cache gives (its directives,
  -- that there is none, or that it was refused), and leaves such a worker; where it reads an argument
  -- that was never written, so does the reading with no cache.
  pub Agrees-load_file :
      (enable : Bool) (path : Bytes) (w : Worker)
      → IsCoherent ngx sys w
      → Agrees ngx sys path (load_file ngx sys enable path w)
  unfolding load_file
  Agrees-load_file false path w c = Agrees-load_missed false path w (stat path) refl c
  Agrees-load_file true path w c =
      Agrees-load_answered path w (cache_lookup stat w.cache path true) refl c
