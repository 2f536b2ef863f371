-- ===== src/PluginHost/Host/Runs.antt =====
-- A host of packages/plugin-host/src/host.ts under any sequence of calls.
pub mod Activations
pub mod Steps
use prime_system.Base.{
  some_injective, ℕ, ◌+◌, Text, String, string_eq, ◌==◌, codes, ◌≡◌, ◌≢◌, refl, sym, ap, ◌∙◌, arith,
  Bool, true, false, not, ◌&&◌, ◌||◌, List, [], ◌∷◌, ◌++◌, Option, none, some, if◌then◌else◌,
  includes, filter, eq_iff, eq_refl, Bool-cases, Option-cases, inl, inr, includes-unique,
  includes-filter,
}
use mathlib.Core.List.{append-nil, append_assoc}
use mathlib.Core.Path.{subst}
use prime_system.Base.Maps.{get, set, get-set}
use prime_system.PluginHost.Lifecycle.{
  LifecycleState, serving, LifecycleState-discrete, PluginLifecycle, is_serving, advance, fail,
  shutdown,
}
use prime_system.PluginHost.Lifecycle.Laws.{
  IsConsistent, advance-IsConsistent, fail-IsConsistent, shutdown-IsConsistent,
}
use prime_system.PluginHost.Capabilities.{authorize_capabilities}
use prime_system.PluginHost.Capabilities.Laws.{granted_least}
use prime_system.PluginHost.Host.{
  HostPolicy, PluginRecord, Effect, emitted, started, called, drained, shut_down, Executor,
}
use prime_system.PluginHost.Host.Activate.{advanced, granted_to}
use prime_system.PluginHost.Host.Gates.{was_started, was_started-append}

-- What an effect needs: an executor is called, drained or shut down only after it was started.
abbrev pub is_due : List Effect → Effect → Bool
is_due before (emitted kind plugin) = true
is_due before (started e plugin) = true
is_due before (called e method) = was_started e before
is_due before (drained e) = was_started e before
is_due before (shut_down e) = was_started e before

abbrev pub in_order : List Effect → List Effect → Bool
in_order before [] = true
in_order before (x ∷ xs) = is_due before x && in_order (before ++ x ∷ []) xs

in_order-snoc :
    (before xs : List Effect) (x : Effect)
    → in_order before (xs ++ x ∷ []) ≡ (in_order before xs && is_due (before ++ xs) x)
in_order-snoc before [] x = rw append-nil (ground arith)
in_order-snoc before (y ∷ xs) x =
    rw (in_order-snoc (before ++ y ∷ []) xs x, append_assoc) (ground arith)

abbrev pub has_executor : Option Executor → Bool
has_executor none = false
has_executor (some e) = true

advance-serving :
    (to : LifecycleState) (l : PluginLifecycle)
    → is_serving (advance to l).0 ≡ true
    → (to ≢ serving)
    → is_serving l ≡ true
unfolding advance is_serving LifecycleState-discrete
advance-serving to l h n = ground (arith, h)

fail-serving : (detail : String) (l : PluginLifecycle) → is_serving (fail detail l).0 ≡ false
unfolding fail is_serving LifecycleState-discrete
fail-serving detail l = ground arith

pub shutdown-serving :
    (detail : Option String) (l : PluginLifecycle) → is_serving (shutdown detail l).0 ≡ false
unfolding shutdown is_serving LifecycleState-discrete
shutdown-serving detail l = ground arith

module _ (policy : HostPolicy) where
  -- A record under its name: its log is that of a lifecycle, it serves only with an executor, what
  -- it is granted is declared and granted by the operator, and its executor was started.
  pub record IsSound (trace : List Effect) (name : String) (r : PluginRecord) : Type 0 where
    pub named : r.name ≡ name
    pub logged : IsConsistent r.lifecycle
    pub ready : is_serving r.lifecycle ≡ true → has_executor r.executor ≡ true
    pub least :
        (c : String)
        → includes r.grants.granted c ≡ true
        → (includes r.manifest.capabilities c && includes (granted_to policy r.name) c) ≡ true
    pub ran : (e : Executor) → r.executor ≡ some e → was_started e trace ≡ true

  pub record AreSound (records : List (String × PluginRecord)) (trace : List Effect) : Type 0 where
    pub each : (name : String) (r : PluginRecord) → get name records ≡ some r → IsSound trace name r
    pub ordered : in_order [] trace ≡ true

  IsSound-later :
      (trace : List Effect) (x : Effect) (name : String) (r : PluginRecord)
      → IsSound trace name r
      → IsSound (trace ++ x ∷ []) name r
  IsSound-later trace x name r s = record {
    named = s.named;
    logged = s.logged;
    ready = s.ready;
    least = s.least;
    ran = λ e h. was_started-append e trace (x ∷ []) ∙ ground (arith, s.ran e h);
  }

  pub effect-AreSound :
      (records : List (String × PluginRecord)) (trace : List Effect) (x : Effect)
      → is_due trace x ≡ true
      → AreSound records trace
      → AreSound records (trace ++ x ∷ [])
  effect-AreSound records trace x due s = record {
    each = λ name r h. IsSound-later trace x name r (s.each name r h);
    ordered = in_order-snoc [] trace x ∙ ground (arith, s.ordered, due);
  }

  pub set-AreSound :
      (records : List (String × PluginRecord)) (trace : List Effect) (r : PluginRecord)
      → IsSound trace r.name r
      → AreSound records trace
      → AreSound (set r.name r records) trace
  set-AreSound records trace r s all = record {
    each = λ name r' h. elim (Bool-cases (r.name == name)) [
      | inl e ↦
          subst (λ k. IsSound trace k r') ((eq_iff r.name name).0 e)
            (subst (IsSound trace r.name)
              (some_injective (ground (arith, get-set r.name name r records, e, h))) s)
      | inr e ↦ all.each name r' (ground (arith, get-set r.name name r records, e, h))
    ];
    ordered = all.ordered;
  }

  pub advanced-IsSound :
      (trace : List Effect) (to : LifecycleState) (r : PluginRecord)
      → to ≢ serving
      → IsSound trace r.name r
      → IsSound trace r.name (advanced to r)
  advanced-IsSound trace to r n s = record {
    named = refl;
    logged = advance-IsConsistent to r.lifecycle s.logged;
    ready = λ h. s.ready (advance-serving to r.lifecycle h n);
    least = s.least;
    ran = s.ran;
  }

  -- A record with an executor may serve.
  pub serving-IsSound :
      (trace : List Effect) (r : PluginRecord)
      → has_executor r.executor ≡ true
      → IsSound trace r.name r
      → IsSound trace r.name (advanced serving r)
  serving-IsSound trace r x s = record {
    named = refl;
    logged = advance-IsConsistent serving r.lifecycle s.logged;
    ready = λ h. x;
    least = s.least;
    ran = s.ran;
  }

  pub failed-IsSound :
      (trace : List Effect) (detail : String) (r : PluginRecord)
      → IsSound trace r.name r
      → IsSound trace r.name (record r { lifecycle = (fail detail r.lifecycle).0 })
  failed-IsSound trace detail r s = record {
    named = refl;
    logged = fail-IsConsistent detail r.lifecycle s.logged;
    ready = λ h. ground (arith, h, fail-serving detail r.lifecycle);
    least = s.least;
    ran = s.ran;
  }

  pub stopped-IsSound :
      (trace : List Effect) (r : PluginRecord)
      → IsSound trace r.name r
      → IsSound trace r.name (record r { lifecycle = (shutdown none r.lifecycle).0 })
  stopped-IsSound trace r s = record {
    named = refl;
    logged = shutdown-IsConsistent none r.lifecycle s.logged;
    ready = λ h. ground (arith, h, shutdown-serving none r.lifecycle);
    least = s.least;
    ran = s.ran;
  }

  pub granted-IsSound :
      (trace : List Effect) (r : PluginRecord)
      → IsSound trace r.name r
      → IsSound trace r.name (record r {
        grants = (authorize_capabilities r.manifest.capabilities (granted_to policy r.name)).grants;
      })
  granted-IsSound trace r s = record {
    named = refl;
    logged = s.logged;
    ready = s.ready;
    least = granted_least r.manifest.capabilities (granted_to policy r.name);
    ran = s.ran;
  }
