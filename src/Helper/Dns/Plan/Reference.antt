-- ===== src/Helper/Dns/Plan/Reference.antt =====
-- The plan of a pass (src/userspace_helper.rs) as four selections.
use mathlib.Core.Path.{ap}
use tunmux.Helper.{MacosDnsFingerprint}
use tunmux.Helper.Dns.Plan.{
  DnsActions, no_actions, plan_dns_actions, plan_owned, plan_targets, shows_tunnel,
}
use tunmux.Prelude.{
  Bool, List, List_eq, [], any, false, if◌then◌else◌, not, refl, retain, true, ℕ_eq, ◌&&◌, ◌++◌,
  ◌==◌, ◌∙◌, ◌∷◌, ◌≡◌,
}
use tunmux.Text.{Str}

-- the tests of the four selections
abbrev is_unowned : List Str → Str → Bool
is_unowned saved service = not (any (λ s. s == service) saved)

abbrev has_drifted : List Str → MacosDnsFingerprint → Str → Bool
has_drifted tunnel_dns found service = not (shows_tunnel tunnel_dns found service)

abbrev is_left : MacosDnsFingerprint → List Str → Str → Bool
is_left found targets service =
    not (any (λ s. s == service) targets) && any (λ s. s == service) found.services

abbrev has_vanished : MacosDnsFingerprint → List Str → Str → Bool
has_vanished found targets service =
    not (any (λ s. s == service) targets) && not (any (λ s. s == service) found.services)

abbrev pub selected_actions : List Str → MacosDnsFingerprint → List Str → List Str → DnsActions
selected_actions tunnel_dns found saved targets = record {
  capture = retain (is_unowned saved) targets;
  restore = retain (is_left found targets) saved;
  drop = retain (has_vanished found targets) saved;
  apply = retain (has_drifted tunnel_dns found) targets;
}

abbrev pub after : DnsActions → DnsActions → DnsActions
after a b = record {
  capture = a.capture ++ b.capture;
  restore = a.restore ++ b.restore;
  drop = a.drop ++ b.drop;
  apply = a.apply ++ b.apply;
}

append-nil : (xs : List Str) → xs ++ [] ≡ xs
append-nil [] = refl
append-nil (x ∷ xs) = ap (λ ys. x ∷ ys) (append-nil xs)

append_assoc : (xs ys zs : List Str) → (xs ++ ys) ++ zs ≡ xs ++ (ys ++ zs)
append_assoc [] ys zs = refl
append_assoc (x ∷ xs) ys zs = ap (λ s. x ∷ s) (append_assoc xs ys zs)

plan_targets_lem :
    (tunnel_dns : List Str) (found : MacosDnsFingerprint) (saved targets : List Str)
    (a : DnsActions)
    → plan_targets tunnel_dns found saved targets a
      ≡ after a (record {
        capture = retain (is_unowned saved) targets;
        restore = [];
        drop = [];
        apply = retain (has_drifted tunnel_dns found) targets;
      })
unfolding plan_targets
plan_targets_lem tunnel_dns found saved [] a = simp (append-nil) refl
plan_targets_lem tunnel_dns found saved (service ∷ rest) a =
    by_tests (any (λ s. s == service) saved) (shows_tunnel tunnel_dns found service)
      (plan_targets_lem tunnel_dns found saved rest)
  where
    c : List Str
    c = retain (is_unowned saved) rest

    d : List Str
    d = retain (has_drifted tunnel_dns found) rest

    next : Bool → Bool → DnsActions
    next b e =
        let captured = if b then a else record a { capture = a.capture ++ service ∷ [] } in
        if e then captured else record captured { apply = captured.apply ++ service ∷ [] }

    by_tests :
        (b e : Bool)
        → ((x : DnsActions)
            → plan_targets tunnel_dns found saved rest x
              ≡ after x (record { capture = c; restore = []; drop = []; apply = d }))
        → plan_targets tunnel_dns found saved rest (next b e)
          ≡ after a (record {
            capture = if not b then service ∷ c else c;
            restore = [];
            drop = [];
            apply = if not e then service ∷ d else d;
          })
    by_tests true true k = k a
    by_tests true false k = simp (append_assoc) at (k (next true false))
    by_tests false true k = simp (append_assoc) at (k (next false true))
    by_tests false false k = simp (append_assoc) at (k (next false false))

plan_owned_lem :
    (found : MacosDnsFingerprint) (targets saved : List Str) (a : DnsActions)
    → plan_owned found targets saved a
      ≡ after a (record {
        capture = [];
        restore = retain (is_left found targets) saved;
        drop = retain (has_vanished found targets) saved;
        apply = [];
      })
unfolding plan_owned
plan_owned_lem found targets [] a = simp (append-nil) refl
plan_owned_lem found targets (service ∷ rest) a =
    by_tests (any (λ s. s == service) targets) (any (λ s. s == service) found.services)
      (plan_owned_lem found targets rest)
  where
    r : List Str
    r = retain (is_left found targets) rest

    d : List Str
    d = retain (has_vanished found targets) rest

    next : Bool → Bool → DnsActions
    next b e =
        if b
        then a
        else if e
        then record a { restore = a.restore ++ service ∷ [] }
        else record a { drop = a.drop ++ service ∷ [] }

    by_tests :
        (b e : Bool)
        → ((x : DnsActions)
            → plan_owned found targets rest x
              ≡ after x (record { capture = []; restore = r; drop = d; apply = [] }))
        → plan_owned found targets rest (next b e)
          ≡ after a (record {
            capture = [];
            restore = if not b && e then service ∷ r else r;
            drop = if not b && not e then service ∷ d else d;
            apply = [];
          })
    by_tests true e k = k a
    by_tests false true k = simp (append_assoc) at (k (next false true))
    by_tests false false k = simp (append_assoc) at (k (next false false))

-- The plan of a pass consists of four selections, each in the order of its list: capture the targets
-- that are not saved, apply to the targets that do not show the tunnel's servers, restore the
-- saved services that are no targets and still exist, and drop those that do not exist.
pub plan_dns_actions_lem :
    (tunnel_dns : List Str) (found : MacosDnsFingerprint) (saved targets : List Str)
    → plan_dns_actions tunnel_dns found saved targets
      ≡ selected_actions tunnel_dns found saved targets
unfolding plan_dns_actions
plan_dns_actions_lem tunnel_dns found saved targets =
    plan_owned_lem found targets saved (plan_targets tunnel_dns found saved targets no_actions)
    ∙ rw (plan_targets_lem tunnel_dns found saved targets no_actions) (simp (append-nil) refl)
