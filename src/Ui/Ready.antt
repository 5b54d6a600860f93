-- ===== src/Ui/Ready.antt =====
-- `jxcore.isReady`: the page polls the device until it is ready.
use mathlib.Core.List.{append_assoc, append-nil}
use node_apphost.Base.{
  ℕ, zero, suc, js, Bool, true, false, List, [], ◌∷◌, ◌++◌, Option, none, some, ◌≡◌, refl,
}
use node_apphost.Base.Dict.{Dict}
use node_apphost.Mobile.{bool}
use node_apphost.Ui.{
  Request, Page, Web, ready_probe, Effect, invoked, call_native, is_ready, timer_fires, respond,
  hear,
}

-- The device answers `false`, and then the timer runs out.
abbrev pub not_ready_round : Web → ℕ → Page → Option Page
not_ready_round w cb p = elim (respond w (some (ready_probe cb)) (bool false) p) [
  | none ↦ none
  | some p' ↦ some (timer_fires p')
]

-- `n` such answers, and then the device answers `true`.
abbrev pub polled : ℕ → Web → ℕ → Page → Option Page
polled zero w cb p = respond w (some (ready_probe cb)) (bool true) p
polled (suc n) w cb p = elim (not_ready_round w cb p) [ none ↦ none | some p' ↦ polled n w cb p' ]

abbrev pub probe : ℕ → Request
probe cb = record { action = js "isReady"; args = []; listener = some (ready_probe cb) }

abbrev pub probes : ℕ → ℕ → List Request
probes zero cb = []
probes (suc n) cb = probe cb ∷ probes n cb

-- A page with the flag `initialized` and no timer.
abbrev pub page_with : Bool → Dict ℕ → List Request → List Effect → Page
page_with b ms rs es = record {
  initialized = b;
  local_methods = ms;
  requests = rs;
  timers = [];
  effects = es;
}

polling :
    (n : ℕ) (w : Web) (cb : ℕ) (ms : Dict ℕ) (rs : List Request) (es : List Effect)
    → polled n w cb (page_with false ms rs es)
      ≡ some (page_with true ms (rs ++ probes n cb) (es ++ invoked cb [] ∷ []))
unfolding respond timer_fires call_native hear is_ready
polling zero w cb ms rs es = rw (append-nil rs) refl
polling (suc n) w cb ms rs es =
    rw⁻¹ (append_assoc rs (probe cb ∷ []) (probes n cb))
      (polling n w cb ms (rs ++ probe cb ∷ []) es)

-- After `n` answers that the device is not ready, and then one that it is, the callback of `isReady`
-- has run once, with no argument, the page is initialized, no timer is left, and the device has been
-- asked `n + 1` times.
pub is_ready_polls :
    (n : ℕ) (w : Web) (cb : ℕ) (ms : Dict ℕ) (rs : List Request) (es : List Effect)
    → polled n w cb (is_ready cb (page_with false ms rs es))
      ≡ some (page_with true ms (rs ++ probes (suc n) cb) (es ++ invoked cb [] ∷ []))
unfolding is_ready call_native
is_ready_polls n w cb ms rs es =
    rw⁻¹ (append_assoc rs (probe cb ∷ []) (probes n cb))
      (polling n w cb ms (rs ++ probe cb ∷ []) es)

-- A callback that waits for the device when another one sees it ready is lost: its timer asks no more
-- and nothing calls it.
pub is_ready_loses :
    (w : Web) (first second : ℕ) (ms : Dict ℕ)
    → elim (respond w
        (some (ready_probe second))
        (bool false)
        (is_ready second (is_ready first (page_with false ms [] [])))) [
          | none ↦ none
          | some p ↦ elim (respond w (some (ready_probe first)) (bool true) p) [
            | none ↦ none
            | some q ↦ some (timer_fires q)
          ]
        ]
      ≡ some (page_with true ms (probes 1 first ++ probes 1 second) (invoked first [] ∷ []))
unfolding is_ready call_native respond timer_fires hear
is_ready_loses w first second ms = refl
