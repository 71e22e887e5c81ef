-- ===== src/Client/SignalDispatch/Delivery.antt =====
-- What the listeners of signals receive.
use cantou.Common.{
  ℕ, ◌≡◌, refl, sym, ap, ◌∙◌, List, [], ◌∷◌, ◌++◌, map, arith, inl, inr, Bool-cases, if◌then◌else◌,
}
use cantou.Models.{CanMessageTimestamped, CanSignalTimestamped}
use cantou.Obd2.{expand_pids_supported}
use cantou.Client.Outlet.{Outlet, send, send_all}
use cantou.Client.SignalFilter.{Group, allow}
use cantou.Client.SignalDispatch.{
  RegisteredListener, fan_out, dispatch_expanded, dispatch_signals, dispatch,
}

abbrev pub allowed : Group → List CanSignalTimestamped → List CanSignalTimestamped
allowed g [] = []
allowed g (s ∷ ss) = let later = allowed g ss in if allow g s then s ∷ later else later

abbrev pub served : List CanSignalTimestamped → RegisteredListener → RegisteredListener
served ss l = record l { outlet = send_all l.outlet ss }

served-append :
    (ss ts : List CanSignalTimestamped) (o : Outlet CanSignalTimestamped)
    → send_all (send_all o ss) ts ≡ send_all o (ss ++ ts)
unfolding send_all
served-append [] ts o = refl
served-append (s ∷ ss) ts o = served-append ss ts (send o s)

map-served-append :
    (ss ts : List CanSignalTimestamped) (ls : List RegisteredListener)
    → map (served ts) (map (served ss) ls) ≡ map (served (ss ++ ts)) ls
map-served-append ss ts [] = refl
map-served-append ss ts (l ∷ ls) =
    rw (served-append ss ts l.outlet, map-served-append ss ts ls) refl

map-served-nil : (ls : List RegisteredListener) → map (served []) ls ≡ ls
unfolding send_all
map-served-nil [] = refl
map-served-nil (l ∷ ls) = ap (λ r. l ∷ r) (map-served-nil ls)

fan_out-served :
    (s : CanSignalTimestamped) (ls : List RegisteredListener)
    → fan_out s ls ≡ map (served (s ∷ [])) ls
unfolding send_all
fan_out-served s ls = refl

module _ (parse_signals : CanMessageTimestamped → List CanSignalTimestamped)
    (to_uint32 : ℕ → ℕ) where
  -- All signals of the frames, in order, expanded.
  abbrev pub expanded : List CanSignalTimestamped → List CanSignalTimestamped
  expanded [] = []
  expanded (sig ∷ sigs) = expand_pids_supported to_uint32 sig ++ expanded sigs

  abbrev pub offered : Group → List CanMessageTimestamped → List CanSignalTimestamped
  offered g [] = []
  offered g (m ∷ ms) = allowed g (expanded (parse_signals m)) ++ offered g ms

  allowed-append :
      (g : Group) (ss ts : List CanSignalTimestamped)
      → allowed g (ss ++ ts) ≡ allowed g ss ++ allowed g ts
  allowed-append g [] ts = refl
  allowed-append g (s ∷ ss) ts = elim (Bool-cases (allow g s)) [
    | inl e ↦ ground (arith, e, allowed-append g ss ts)
    | inr e ↦ ground (arith, e, allowed-append g ss ts)
  ]

  dispatch_expanded-served :
      (g : Group) (ss : List CanSignalTimestamped) (ls : List RegisteredListener)
      → dispatch_expanded parse_signals to_uint32 g ss ls ≡ map (served (allowed g ss)) ls
  unfolding dispatch_expanded
  dispatch_expanded-served g [] ls = sym (map-served-nil ls)
  dispatch_expanded-served g (s ∷ ss) ls = elim (Bool-cases (allow g s)) [
    | inl e ↦ rw e (
        dispatch_expanded-served g ss (fan_out s ls)
        ∙ ap (map (served (allowed g ss))) (fan_out-served s ls)
        ∙ map-served-append (s ∷ []) (allowed g ss) ls)
    | inr e ↦ rw e (dispatch_expanded-served g ss ls)
  ]

  dispatch_signals-served :
      (g : Group) (sigs : List CanSignalTimestamped) (ls : List RegisteredListener)
      → dispatch_signals parse_signals to_uint32 g sigs ls
        ≡ map (served (allowed g (expanded sigs))) ls
  unfolding dispatch_signals
  dispatch_signals-served g [] ls = sym (map-served-nil ls)
  dispatch_signals-served g (sig ∷ sigs) ls =
      dispatch_signals-served g sigs
        (dispatch_expanded parse_signals to_uint32 g (expand_pids_supported to_uint32 sig) ls)
      ∙ ap (map (served (allowed g (expanded sigs))))
          (dispatch_expanded-served g (expand_pids_supported to_uint32 sig) ls)
      ∙ map-served-append (allowed g (expand_pids_supported to_uint32 sig))
          (allowed g (expanded sigs)) ls
      ∙ ap (λ ss. map (served ss) ls)
          (sym (allowed-append g (expand_pids_supported to_uint32 sig) (expanded sigs)))

  -- For every parser, every listener is offered the same signals: those that the parser gives
  -- for all frames in order, expanded, and then those of them that the filter allows.
  pub dispatch-served :
      (g : Group) (ms : List CanMessageTimestamped) (ls : List RegisteredListener)
      → dispatch parse_signals to_uint32 g ms ls ≡ map (served (offered g ms)) ls
  unfolding dispatch
  dispatch-served g [] ls = sym (map-served-nil ls)
  dispatch-served g (m ∷ ms) ls =
      dispatch-served g ms (dispatch_signals parse_signals to_uint32 g (parse_signals m) ls)
      ∙ ap (map (served (offered g ms))) (dispatch_signals-served g (parse_signals m) ls)
      ∙ map-served-append (allowed g (expanded (parse_signals m))) (offered g ms) ls
