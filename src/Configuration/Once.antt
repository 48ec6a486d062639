-- ===== src/Configuration/Once.antt =====
-- Which directives a block of the configuration accepts.
use ngx_htaccess.Common.{
  ◌≡◌, ◌≢◌, refl, ap, inl, inr, Bool-cases, subst, Bool, true, false, List, [], ◌∷◌, Option, none,
  some, ℕ, Bytes, All,
}
use ngx_htaccess.Configuration.{
  Slots, Settings, create_main_conf, create_loc_conf, Command, htaccess, htaccess_file,
  htaccess_cache, htaccess_cache_max_entries, htaccess_max_redirects, set_enable, set_filename,
  set_cache_enable, set_cache_max_entries, set_max_redirects, set_command,
}
use ngx_htaccess.Ngx.{Ngx}

-- The settings of a configuration that begins.
abbrev pub created : Settings
created = record { main = create_main_conf; loc = create_loc_conf }

abbrev pub is_some : {A : Type 0} → Option A → Bool
is_some none = false
is_some (some a) = true

-- The field of a command is set.
abbrev pub is_set : Settings → Command → Bool
is_set s htaccess = is_some s.loc.enable
is_set s htaccess_file = is_some s.loc.filename
is_set s htaccess_cache = is_some s.loc.cache_enable
is_set s htaccess_cache_max_entries = is_some s.main.cache_max_entries
is_set s htaccess_max_redirects = is_some s.loc.max_redirects

module _ (ngx : Ngx) (slots : Slots ngx) where
  -- The directives of a block, in their order.
  unfoldable pub set_commands : Settings → List (Command × Bytes) → Option Settings
  unfolding set_command
  set_commands s [] = some s
  set_commands s (c ∷ l) = elim (set_command ngx slots s c) [
    | none ↦ none
    | some t ↦ set_commands t l
  ]

All_map :
    {P Q : Command × Bytes → Type 0} (l : List (Command × Bytes))
    → ((c : Command × Bytes) → P c → Q c)
    → All P l
    → All Q l
All_map [] f h = tt
All_map (c ∷ l) f h = (f c h.0, All_map l f h.1)

-- No directive of the list is repeated.
abbrev pub IsDistinct : List (Command × Bytes) → Type 0
IsDistinct [] = Unit
IsDistinct (c ∷ l) = All (λ d. d.0 ≢ c.0) l × IsDistinct l

-- A command sets a field that was not set, and no other field is lost.
abbrev pub Sets : Command → Settings → Settings → Type 0
Sets c s t =
    (is_set s c ≡ false)
    × (is_set t c ≡ true)
    × ((d : Command) → is_set s d ≡ true → is_set t d ≡ true)

-- What a slot does with the field: the field was not set, and the value is put there.
by_slot :
    {A : Type 0} (o f : Option A) (put : Option A → Option Settings) (u : Settings)
    → (is_some o ≡ true → f ≡ none)
    → put none ≡ none
    → put f ≡ some u
    → (is_some o ≡ false) × ((a : A) × (put (some a) ≡ some u))
by_slot none none put u refuses empty h = absurd (cc (empty, h))
by_slot none (some a) put u refuses empty h = (refl, (a, h))
by_slot (some b) f put u refuses empty h = absurd (cc (refuses refl, empty, h))

not_set :
    (s v : Settings) (c : Command)
    → (is_set s c ≡ true → is_set v c ≡ true)
    → is_set v c ≡ false
    → is_set s c ≡ false
not_set s v c h k = elim (Bool-cases (is_set s c)) [
  | inl on ↦ absurd (cc (h on, k))
  | inr off ↦ off
]

Sets-some :
    (c : Command) (s t u : Settings)
    → (is_set s c ≡ false) × (some t ≡ some u)
    → is_set t c ≡ true
    → ((d : Command) → is_set s d ≡ true → is_set t d ≡ true)
    → Sets c s u
Sets-some c s t u h on kept = subst (Sets c s) (cc h.1) (h.0, on, kept)

module _ (ngx : Ngx) (slots : Slots ngx) where
  open slots use {
    set_flag_slot, set_str_slot, set_num_slot, set_flag_slot_lem, set_str_slot_lem,
    set_num_slot_lem,
  }

  set_flag_slot_refuses :
      (o : Option Bool) (t : Bytes) → is_some o ≡ true → set_flag_slot o t ≡ none
  set_flag_slot_refuses none t h = absurd (cc h)
  set_flag_slot_refuses (some b) t h = set_flag_slot_lem (some b) t

  set_num_slot_refuses : (o : Option ℕ) (t : Bytes) → is_some o ≡ true → set_num_slot o t ≡ none
  set_num_slot_refuses none t h = absurd (cc h)
  set_num_slot_refuses (some b) t h = set_num_slot_lem (some b) t

  set_str_slot_refuses : (o : Option Bytes) (t : Bytes) → is_some o ≡ true → set_str_slot o t ≡ none
  set_str_slot_refuses none t h = absurd (cc h)
  set_str_slot_refuses (some b) t h = set_str_slot_lem (some b) t

  set_command-Sets :
      (s u : Settings) (c : Command) (t : Bytes)
      → set_command ngx slots s (c, t) ≡ some u
      → Sets c s u
  unfolding set_command
  set_command-Sets s u htaccess t h =
      let (unset, (a, put)) =
        by_slot s.loc.enable _ (set_enable ngx slots s) u (set_flag_slot_refuses s.loc.enable t)
          refl h in
      let v : Settings = record s { loc = record (s.loc) { enable = some a } } in
      Sets-some htaccess s v u (unset, put) refl
        (λ d. elim d as (λ d. is_set s d ≡ true → is_set v d ≡ true) [
          | htaccess ↦ λ k. refl
          | htaccess_file ↦ λ k. k
          | htaccess_cache ↦ λ k. k
          | htaccess_cache_max_entries ↦ λ k. k
          | htaccess_max_redirects ↦ λ k. k
        ])
  set_command-Sets s u htaccess_file t h =
      let (unset, (a, put)) =
        by_slot s.loc.filename _ (set_filename ngx slots s) u
          (set_str_slot_refuses s.loc.filename t) refl h in
      let v : Settings = record s { loc = record (s.loc) { filename = some a } } in
      Sets-some htaccess_file s v u (unset, put) refl
        (λ d. elim d as (λ d. is_set s d ≡ true → is_set v d ≡ true) [
          | htaccess ↦ λ k. k
          | htaccess_file ↦ λ k. refl
          | htaccess_cache ↦ λ k. k
          | htaccess_cache_max_entries ↦ λ k. k
          | htaccess_max_redirects ↦ λ k. k
        ])
  set_command-Sets s u htaccess_cache t h =
      let (unset, (a, put)) =
        by_slot s.loc.cache_enable _ (set_cache_enable ngx slots s) u
          (set_flag_slot_refuses s.loc.cache_enable t) refl h in
      let v : Settings = record s { loc = record (s.loc) { cache_enable = some a } } in
      Sets-some htaccess_cache s v u (unset, put) refl
        (λ d. elim d as (λ d. is_set s d ≡ true → is_set v d ≡ true) [
          | htaccess ↦ λ k. k
          | htaccess_file ↦ λ k. k
          | htaccess_cache ↦ λ k. refl
          | htaccess_cache_max_entries ↦ λ k. k
          | htaccess_max_redirects ↦ λ k. k
        ])
  set_command-Sets s u htaccess_cache_max_entries t h =
      let (unset, (a, put)) =
        by_slot s.main.cache_max_entries _ (set_cache_max_entries ngx slots s) u
          (set_num_slot_refuses s.main.cache_max_entries t) refl h in
      let v : Settings = record s { main = record { cache_max_entries = some a } } in
      Sets-some htaccess_cache_max_entries s v u (unset, put) refl
        (λ d. elim d as (λ d. is_set s d ≡ true → is_set v d ≡ true) [
          | htaccess ↦ λ k. k
          | htaccess_file ↦ λ k. k
          | htaccess_cache ↦ λ k. k
          | htaccess_cache_max_entries ↦ λ k. refl
          | htaccess_max_redirects ↦ λ k. k
        ])
  set_command-Sets s u htaccess_max_redirects t h =
      let (unset, (a, put)) =
        by_slot s.loc.max_redirects _ (set_max_redirects ngx slots s) u
          (set_num_slot_refuses s.loc.max_redirects t) refl h in
      let v : Settings = record s { loc = record (s.loc) { max_redirects = some a } } in
      Sets-some htaccess_max_redirects s v u (unset, put) refl
        (λ d. elim d as (λ d. is_set s d ≡ true → is_set v d ≡ true) [
          | htaccess ↦ λ k. k
          | htaccess_file ↦ λ k. k
          | htaccess_cache ↦ λ k. k
          | htaccess_cache_max_entries ↦ λ k. k
          | htaccess_max_redirects ↦ λ k. refl
        ])

  unset-IsDistinct :
      (s u : Settings) (c : Command) (t : Bytes) (l : List (Command × Bytes)) (o : Option Settings)
      → set_command ngx slots s (c, t) ≡ o
      → ((v : Settings)
          → set_commands ngx slots v l ≡ some u
          → All (λ d. is_set v d.0 ≡ false) l × IsDistinct l)
      → elim o [ none ↦ none | some v ↦ set_commands ngx slots v l ] ≡ some u
      → All (λ d. is_set s d.0 ≡ false) ((c, t) ∷ l) × IsDistinct ((c, t) ∷ l)
  unset-IsDistinct s u c t l none e next h = absurd (cc h)
  unset-IsDistinct s u c t l (some v) e next h =
      let (unset, on, kept) = set_command-Sets s v c t e in
      let (later, distinct) = next v h in
      (
        (unset, All_map l (λ d k. not_set s v d.0 (kept d.0) k) later),
        (All_map l (λ d k q. absurd (cc (k, on, ap (is_set v) q))) later, distinct),
      )

  -- What is set is refused, so what is accepted was not set.
  set_commands-unset :
      (l : List (Command × Bytes)) (s u : Settings)
      → set_commands ngx slots s l ≡ some u
      → All (λ c. is_set s c.0 ≡ false) l × IsDistinct l
  unfolding set_commands
  set_commands-unset [] s u h = (tt, tt)
  set_commands-unset ((c, t) ∷ l) s u h =
      unset-IsDistinct s u c t l (set_command ngx slots s (c, t)) refl
        (λ v. set_commands-unset l v u) h

  -- A block of nginx's configuration is accepted only if no directive is repeated in it, and
  -- `htaccess_cache_max_entries` does not occur in it at all: the field of that directive has its
  -- default from the start, so nginx takes each use of it for a second one.
  pub set_commands-IsDistinct :
      (l : List (Command × Bytes)) (u : Settings)
      → set_commands ngx slots created l ≡ some u
      → IsDistinct l × All (λ c. c.0 ≢ htaccess_cache_max_entries) l
  unfolding create_main_conf create_loc_conf
  set_commands-IsDistinct l u h =
      let (unset, distinct) = set_commands-unset l created u h in
      (distinct, All_map l (λ c k q. absurd (cc (k, ap (is_set created) q))) unset)
