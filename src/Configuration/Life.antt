-- ===== src/Configuration/Life.antt =====
-- The requests of a worker, from its start on.
use ngx_htaccess.Common.{
  ◌∙◌, not, if◌then◌else◌, ℕ, ◌≡◌, refl, ap, subst, inl, inr, Bool, Bool-cases, true, false, Option,
  Bytes, Outcome, ok, error, fault, out_of_fuel, ◌>>=◌, sym, [],
}
use ngx_htaccess.Cache.Invariant.{cache_init-IsValid}
use ngx_htaccess.Cache.{cache_init}
use ngx_htaccess.Configuration.{MainConf, max_of, init_process, Handled, handled, handler}
use ngx_htaccess.Engine.Conds.{Context, Code, number, code_declined, code_error}
use ngx_htaccess.Engine.Uris.{Http}
use ngx_htaccess.Engine.State.{Response, Request, RequestState, Regexes}
use ngx_htaccess.Ngx.{Ngx}
use ngx_htaccess.Pipeline.Cached.{with_cache, SameOrFault, forget, forget-execute}
use ngx_htaccess.Pipeline.Returns.{Ends, execute-Ends}
use ngx_htaccess.Pipeline.Promised.{IsStatus}
use ngx_htaccess.Pipeline.Freed.{Frees}
use ngx_htaccess.Walk.Build.{any_destroyed}
use ngx_htaccess.Walk.Build.Lives.{IsLive}
use ngx_htaccess.Pipeline.{start_view, LocConf, View, execute}
use ngx_htaccess.System.{System, Contents}
use ngx_htaccess.Pipeline.Keeps.{PassLeaves, PassLeaves-execute}
use ngx_htaccess.Walk.Load.Versions.{IsVersioned, IsKept, IsKept-IsCoherent, Leaves-load_file}
use ngx_htaccess.Walk.Load.Views.{IsCoherent}
use ngx_htaccess.Walk.Load.{Worker}

-- A request with the location that it belongs to, and the files as they are during it.
pub record Visit : Type 0 where
  pub sys : System
  pub loc : LocConf
  pub http : Http
  pub response : Response
  pub rx : Regexes
  pub root : Bytes
  pub c_text : Bytes → Bytes
  pub request : Request
  pub state : RequestState

-- A result without the worker.
pub seen : Handled → Outcome (Code × (Http × Response))
seen (ok (code, (w, s))) = ok (code, s)
seen error = error
seen fault = fault
seen out_of_fuel = out_of_fuel

abbrev shown : Code × View → Outcome (Code × (Http × Response))
shown (code, v) = ok (code, (v.http, v.response))

seen-handled : (o : Outcome (Code × (Worker × View))) → seen (o >>= handled) ≡ (forget o >>= shown)
unfolding seen forget
seen-handled (ok (code, (w, v))) = refl
seen-handled error = refl
seen-handled fault = refl
seen-handled out_of_fuel = refl

-- The worker that a request leaves has a property.
abbrev pub HandledLeaves : (Worker → Type 0) → Handled → Type 0
HandledLeaves Q (ok (code, (w, s))) = Q w
HandledLeaves Q _ = Unit

HandledLeaves-handled :
    (Q : Worker → Type 0) (o : Outcome (Code × (Worker × View)))
    → PassLeaves Q o
    → HandledLeaves Q (o >>= handled)
HandledLeaves-handled Q (ok (code, (w, v))) h = h
HandledLeaves-handled Q error h = tt
HandledLeaves-handled Q fault h = tt
HandledLeaves-handled Q out_of_fuel h = tt

handler_on :
    (cx : Context) (loc : LocConf) (w : Worker) (http : Http) (r : Response)
    → loc.enable ≡ true
    → handler cx loc w http r ≡ (execute cx loc w http r >>= handled)
unfolding handler
handler_on cx loc w http r on =
    ap
      (λ b.
        if not b then ok (code_declined, (w, (http, r))) else (execute cx loc w http r >>= handled))
      on

handler_off :
    (cx : Context) (loc : LocConf) (w : Worker) (http : Http) (r : Response)
    → loc.enable ≡ false
    → handler cx loc w http r ≡ ok (code_declined, (w, (http, r)))
unfolding handler
handler_off cx loc w http r off =
    ap
      (λ b.
        if not b then ok (code_declined, (w, (http, r))) else (execute cx loc w http r >>= handled))
      off

-- The files change only so that each time and size of a path stands for one version of its contents.
module _ (ngx : Ngx) (contents : Bytes → ℕ → ℕ → Contents) where
  abbrev pub context_for : Visit → Context
  context_for v = record {
    ngx = ngx;
    sys = v.sys;
    rx = v.rx;
    root = v.root;
    c_text = v.c_text;
    request = v.request;
    state = v.state;
  }

  abbrev pub serve : Visit → Worker → Handled
  serve v w = handler (context_for v) v.loc w v.http v.response

  abbrev pub started : Option MainConf → ℕ → Worker
  started main n = record { cache = init_process main; next_pool = n }

  -- The workers that come about by requests, of any locations, from one that starts; between two
  -- requests the files may change.
  pub data Reaches (main : Option MainConf) : Worker → Type 0 where
    starts : (n : ℕ) → Reaches main (started main n)
    goes_on :
        (w w' : Worker) (v : Visit) (code : Code) (s : Http × Response)
        → Reaches main w
        → IsVersioned ngx contents v.sys
        → serve v w ≡ ok (code, (w', s))
        → Reaches main w'

  started-IsKept : (main : Option MainConf) (n : ℕ) → IsKept ngx contents (started main n)
  unfolding init_process cache_init
  started-IsKept main n = record { valid = cache_init-IsValid (max_of main); recorded = tt }

  serve-IsKept :
      (v : Visit) (w : Worker)
      → IsVersioned ngx contents v.sys
      → IsKept ngx contents w
      → HandledLeaves (IsKept ngx contents) (serve v w)
  unfolding handler
  serve-IsKept v w h k = elim (Bool-cases v.loc.enable) [
    | inl on ↦ rw on (
        HandledLeaves-handled (IsKept ngx contents) _ (
          PassLeaves-execute (context_for v) v.loc (IsKept ngx contents)
            (Leaves-load_file ngx contents v.sys h) w v.http v.response k))
    | inr off ↦ rw off k
  ]

  Reaches-IsKept : (main : Option MainConf) (w : Worker) → Reaches main w → IsKept ngx contents w
  Reaches-IsKept main _ (starts n) = started-IsKept main n
  Reaches-IsKept main _ (goes_on w w' v code s r h e) =
      subst (HandledLeaves (IsKept ngx contents)) e (serve-IsKept v w h (Reaches-IsKept main w r))

  Reaches-IsCoherent :
      (main : Option MainConf) (w : Worker) (sys : System)
      → Reaches main w
      → IsVersioned ngx contents sys
      → IsCoherent ngx sys w
  Reaches-IsCoherent main w sys r h =
      IsKept-IsCoherent ngx contents sys h w (Reaches-IsKept main w r)

  -- A request ends with NGX_DECLINED or a status that is not 0, and leaves a cache that is valid and
  -- agrees with the files; a fault is memory that was never written.
  abbrev pub EndsWell : System → Handled → Type 0
  EndsWell sys (ok (code_declined, (w, s))) = IsCoherent ngx sys w
  EndsWell sys (ok (code, (w, s))) = IsStatus code × IsCoherent ngx sys w
  EndsWell sys fault = Unit
  EndsWell sys _ = ⊥

  handled-EndsWell :
      (v : Visit) (o : Outcome (Code × (Worker × View)))
      → Ends (context_for v) v.loc v.http.uri o
      → EndsWell v.sys (o >>= handled)
  handled-EndsWell v (ok (number n, (w, u))) h = h
  handled-EndsWell v (ok (code_declined, (w, u))) h = h
  handled-EndsWell v (ok (code_error, (w, u))) h = h
  handled-EndsWell v fault h = tt
  handled-EndsWell v error h = h
  handled-EndsWell v out_of_fuel h = h

  serve-EndsWell : (v : Visit) (w : Worker) → IsCoherent ngx v.sys w → EndsWell v.sys (serve v w)
  unfolding handler
  serve-EndsWell v w c = elim (Bool-cases v.loc.enable) [
    | inl on ↦
        rw on (handled-EndsWell v _ (execute-Ends (context_for v) v.loc w v.http v.response c))
    | inr off ↦ rw off c
  ]

  -- However many requests a worker has served since it started, whatever they were and however the
  -- files changed between them, as long as a time and a size of a path always stand for the same
  -- contents: the handler returns on the next one, unless it reads memory that was never written or
  -- is left with directives in a pool that the cache destroyed, with NGX_DECLINED or a status that is
  -- not 0, never with NGX_OK or NGX_ERROR; and the cache is valid and agrees with the files.
  pub Reaches-EndsWell :
      (main : Option MainConf) (w : Worker) (v : Visit)
      → Reaches main w
      → IsVersioned ngx contents v.sys
      → EndsWell v.sys (serve v w)
  Reaches-EndsWell main w v r h = serve-EndsWell v w (Reaches-IsCoherent main w v.sys r h)

  -- A request to a location whose cache is on or off.
  abbrev pub serve_with : Bool → Visit → Worker → Handled
  serve_with b v w = serve (record v { loc = with_cache b v.loc }) w

  -- One of the walks of a request to a location whose cache is on destroys a pool that the
  -- directives of the request are in.
  abbrev pub FreesOn : Visit → Worker → Type 0
  FreesOn v w =
      Frees (context_for v) (with_cache true v.loc) v.http.uri v.loc.max_redirects true [] w
        (start_view (context_for v) v.http v.response)

  seen-SameOrFault :
      (F : Type 0) (o o' : Outcome (Code × (Worker × View)))
      → SameOrFault F (forget o) (forget o')
      → SameOrFault F (seen (o >>= handled)) (seen (o' >>= handled))
  unfolding seen forget
  seen-SameOrFault F o o' (inl same) =
      inl (seen-handled o ∙ ap (λ x. x >>= shown) same ∙ sym (seen-handled o'))
  seen-SameOrFault F o o' (inr (failed, reason)) =
      inr (seen-handled o ∙ ap (λ x. x >>= shown) failed, reason)

  seen-serve :
      (v : Visit) (w w' : Worker)
      → IsCoherent ngx v.sys w
      → IsCoherent ngx v.sys w'
      → IsLive w' []
      → SameOrFault (FreesOn v w) (seen (serve_with true v w)) (seen (serve_with false v w'))
  unfolding seen
  seen-serve v w w' h h' l = elim (Bool-cases v.loc.enable) [
    | inl on ↦
        rw
          (
            handler_on (context_for v) (with_cache true v.loc) w v.http v.response on,
            handler_on (context_for v) (with_cache false v.loc) w' v.http v.response on,
          )
          (seen-SameOrFault (FreesOn v w) _ _
            (forget-execute (context_for v) v.loc true w w' v.http v.response h h' l))
    | inr off ↦
        rw
          (
            handler_off (context_for v) (with_cache true v.loc) w v.http v.response off,
            handler_off (context_for v) (with_cache false v.loc) w' v.http v.response off,
          )
          (inl refl)
  ]

  started-IsLive : (main : Option MainConf) (n : ℕ) → IsLive (started main n) []
  unfolding init_process cache_init any_destroyed
  started-IsLive main n = record { destroyed_below = tt; held_below = tt; live = refl }

  -- A worker that has served any requests, between which the files may have changed, answers the next
  -- one with the cache on as a worker that has just started answers it with the cache off: the code,
  -- the request and the response are the same, as long as a time and a size of a path always stand
  -- for the same contents. The exception is a fault, where one of the walks of the request destroys a
  -- pool that its directives are in.
  pub Reaches-seen :
      (main : Option MainConf) (w : Worker) (v : Visit) (n : ℕ)
      → Reaches main w
      → IsVersioned ngx contents v.sys
      → SameOrFault
          (FreesOn v w)
          (seen (serve_with true v w))
          (seen (serve_with false v (started main n)))
  Reaches-seen main w v n r h =
      seen-serve v w (started main n) (Reaches-IsCoherent main w v.sys r h)
        (Reaches-IsCoherent main (started main n) v.sys (starts n) h) (started-IsLive main n)
