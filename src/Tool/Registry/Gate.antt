-- ===== src/Tool/Registry/Gate.antt =====
-- internal/tool/registry.go: when Execute runs a tool, and what it logs.
use sclaw.Prelude.{
  ℕ, String, Bool, true, false, Option, none, some, ◌⊎◌, inl, inr, ◌≡◌, ◌≢◌, ◌↔◌, refl, sym,
  false≢true, ap, ◌∙◌, arith, String-discrete, Bool-cases,
}
use sclaw.Tool.Policy.{
  ApprovalLevel, approval_allow, approval_ask, approval_deny, PolicyConfig, ElevatedState,
  is_active, apply, resolve_policy,
}
use sclaw.Tool.Registry.{
  Tool, Registry, Wake, decided, begin, Reply, Verdict, refused, ran, get, charge, decide,
  after_request, execute, ToolError, denied, rate_limited, apply_elevated,
}

abbrev pub has_run : Verdict → Bool
has_run (ran reply) = true
has_run (refused e) = false

-- The elevated mode is on.
abbrev pub elevated_on : ℕ → Option ElevatedState → Bool
elevated_on now none = false
elevated_on now (some e) = is_active now e

-- The user was asked and said yes.
abbrev pub Approved : Option Wake → Type 0
Approved wake = wake ≡ some (decided true)

-- What must be so for a level to let a tool run.
abbrev pub Permits : ApprovalLevel → Bool → Option Wake → Type 0
Permits level elevated wake =
    (level ≡ approval_allow) ⊎ ((level ≡ approval_ask) × ((elevated ≡ true) ⊎ Approved wake))

begin-approves : (w : Wake) → begin w ≡ inr true → w ≡ decided true
unfolding begin
begin-approves w h = ground arith

after_request-has_run :
    (r : Registry) (reply : Reply) (w : Wake)
    → has_run (after_request r reply (begin w)).verdict ≡ true
    → w ≡ decided true
unfolding after_request begin
after_request-has_run r reply w h = ground arith

allow≢deny : approval_allow ≢ approval_deny
allow≢deny e = cc

ask≢deny : approval_ask ≢ approval_deny
ask≢deny e = cc

ask≢allow : approval_ask ≢ approval_allow
ask≢allow e = cc

decide-allow :
    (r : Registry) (wake : Option Wake) (reply : Reply)
    → has_run (decide r approval_allow wake reply).verdict ≡ true
unfolding decide
decide-allow r wake reply = ground (arith, allow≢deny)

ask_verdict : Registry → Option Wake → Reply → Verdict
ask_verdict r none reply = refused denied
ask_verdict r (some w) reply = (after_request r reply (begin w)).verdict

decide-ask :
    (r : Registry) (wake : Option Wake) (reply : Reply)
    → (decide r approval_ask wake reply).verdict ≡ ask_verdict r wake reply
unfolding decide ask_verdict
decide-ask r none reply = ground (arith, ask≢deny, ask≢allow)
decide-ask r (some w) reply = ground (arith, ask≢deny, ask≢allow)

decide_other :
    (r : Registry) (level : ApprovalLevel) (wake : Option Wake) (reply : Reply)
    → level ≢ approval_allow
    → level ≢ approval_ask
    → has_run (decide r level wake reply).verdict ≡ false
unfolding decide
decide_other r level wake reply h k = ground arith

ask_verdict-has_run :
    (r : Registry) (wake : Option Wake) (reply : Reply)
    → has_run (ask_verdict r wake reply) ≡ true ↔ Approved wake
unfolding ask_verdict after_request begin
ask_verdict-has_run r wake reply = (λ h. ground arith, λ h. ground arith)

decide-has_run :
    (r : Registry) (level : ApprovalLevel) (wake : Option Wake) (reply : Reply)
    → has_run (decide r level wake reply).verdict ≡ true
      ↔ ((level ≡ approval_allow) ⊎ ((level ≡ approval_ask) × Approved wake))
decide-has_run r level wake reply = (to, from)
  where
    to :
        has_run (decide r level wake reply).verdict ≡ true
        → (level ≡ approval_allow) ⊎ ((level ≡ approval_ask) × Approved wake)
    to h = elim (String-discrete level approval_allow) [
      | yes p ↦ inl p
      | no p ↦ elim (String-discrete level approval_ask) [
        | yes q ↦ inr (
          q,
          (ask_verdict-has_run r wake reply).0 (
              ap has_run (sym (decide-ask r wake reply))
              ∙ ap (λ l. has_run (decide r l wake reply).verdict) (sym q)
              ∙ h),
        )
        | no q ↦ absurd (false≢true (sym (decide_other r level wake reply p q) ∙ h))
      ]
    ]

    from :
        (level ≡ approval_allow) ⊎ ((level ≡ approval_ask) × Approved wake)
        → has_run (decide r level wake reply).verdict ≡ true
    from (inl p) = rw p (decide-allow r wake reply)
    from (inr (p, q)) =
        rw p (ap has_run (decide-ask r wake reply) ∙ (ask_verdict-has_run r wake reply).1 q)

apply_elevated_on :
    (now : ℕ) (elevated : Option ElevatedState)
    → elevated_on now elevated ≡ true
    → apply_elevated now elevated approval_ask ≡ approval_allow
unfolding apply_elevated apply
apply_elevated_on now none h = cc
apply_elevated_on now (some e) h = ground arith

apply_elevated_off :
    (now : ℕ) (elevated : Option ElevatedState) (level : ApprovalLevel)
    → (elevated_on now elevated ≡ false) ⊎ (level ≢ approval_ask)
    → apply_elevated now elevated level ≡ level
unfolding apply_elevated apply
apply_elevated_off now none level h = refl
apply_elevated_off now (some e) level h = ground arith

apply_elevated_iff :
    (now : ℕ) (elevated : Option ElevatedState) (level : ApprovalLevel) (wake : Option Wake)
    → ((apply_elevated now elevated level ≡ approval_allow)
        ⊎ ((apply_elevated now elevated level ≡ approval_ask) × Approved wake))
      ↔ Permits level (elevated_on now elevated) wake
apply_elevated_iff now elevated level wake = elim (String-discrete level approval_ask) [
  | yes q ↦ at_ask q
  | no q ↦ plain (apply_elevated_off now elevated level (inr q)) (λ p. absurd (q p))
]
  where
    plain :
        apply_elevated now elevated level ≡ level
        → (level ≡ approval_ask → elevated_on now elevated ≡ false)
        → ((apply_elevated now elevated level ≡ approval_allow)
            ⊎ ((apply_elevated now elevated level ≡ approval_ask) × Approved wake))
          ↔ Permits level (elevated_on now elevated) wake
    plain e k = (λ h. ground arith, λ h. ground arith)

    at_ask :
        level ≡ approval_ask
        → ((apply_elevated now elevated level ≡ approval_allow)
            ⊎ ((apply_elevated now elevated level ≡ approval_ask) × Approved wake))
          ↔ Permits level (elevated_on now elevated) wake
    at_ask q = elim (Bool-cases (elevated_on now elevated)) [
      | inl on ↦ (
        λ h. inr (q, inl on),
        λ h. inl (ap (apply_elevated now elevated) q ∙ apply_elevated_on now elevated on),
      )
      | inr off ↦ plain (apply_elevated_off now elevated level (inl off)) (λ p. off)
    ]

module _ (now : ℕ) (r : Registry) (name session : String) (cfg : PolicyConfig) (ctx : String)
    (elevated : Option ElevatedState) (wake : Option Wake) (act : Tool → Reply) where
  execute_missing :
      (e : ToolError)
      → get r name ≡ inl e
      → (execute now r name session cfg ctx elevated wake act).verdict ≡ refused e
  unfolding execute
  execute_missing e g = rw (g, execute) refl

  execute_found :
      (t : Tool)
      → get r name ≡ inr t
      → (charge now r session).1 ≡ true
      → (execute now r name session cfg ctx elevated wake act).verdict
        ≡ (decide
            (charge now r session).0
            (apply_elevated now elevated (resolve_policy cfg ctx t.name t.default_policy))
            wake
            (act t)).verdict
  unfolding execute
  execute_found t g ok = rw (g, execute) (rw ok refl)

  execute_over :
      (t : Tool)
      → get r name ≡ inr t
      → (charge now r session).1 ≡ false
      → (execute now r name session cfg ctx elevated wake act).verdict ≡ refused rate_limited
  unfolding execute
  execute_over t g over = rw (g, execute) (rw over refl)

-- A tool is run exactly when the registry has it, its session's rate limit lets it through, and its
-- level permits it: allow; or ask, with the elevated mode on or the user asked and approving. A level
-- of deny, or of no meaning, is never run, whatever the elevated mode and the user say.
pub execute_ran_iff :
    (now : ℕ) (r : Registry) (name session : String) (cfg : PolicyConfig) (ctx : String)
    (elevated : Option ElevatedState) (wake : Option Wake) (act : Tool → Reply)
    → has_run (execute now r name session cfg ctx elevated wake act).verdict ≡ true ↔ (
        (t : Tool) × (get r name ≡ inr t)
        × ((charge now r session).1 ≡ true)
        × Permits (resolve_policy cfg ctx t.name t.default_policy) (elevated_on now elevated) wake)
unfolding execute
execute_ran_iff now r name session cfg ctx elevated wake act = (to (get r name) refl, from)
  where
    level : Tool → ApprovalLevel
    level t = resolve_policy cfg ctx t.name t.default_policy

    verdict : Verdict
    verdict = (execute now r name session cfg ctx elevated wake act).verdict

    Runs : Type 0
    Runs =
        (t : Tool) × (get r name ≡ inr t)
        × ((charge now r session).1 ≡ true)
        × Permits (level t) (elevated_on now elevated) wake

    to : (o : ToolError ⊎ Tool) → get r name ≡ o → has_run verdict ≡ true → Runs
    to (inl e) g h = absurd (
        false≢true
          (ap has_run (sym (execute_missing now r name session cfg ctx elevated wake act e g)) ∙ h))
    to (inr t) g h = elim (Bool-cases (charge now r session).1) [
      | inl ok ↦ (
        t,
        g,
        ok,
        (apply_elevated_iff now elevated (level t) wake).0 (
            (decide-has_run (charge now r session).0 (apply_elevated now elevated (level t)) wake
                (act t)).0
              (ap has_run (sym (execute_found now r name session cfg ctx elevated wake act t g ok))
                ∙ h)),
      )
      | inr over ↦ absurd (
          false≢true (
            ap has_run (sym (execute_over now r name session cfg ctx elevated wake act t g over))
            ∙ h))
    ]

    from : Runs → has_run verdict ≡ true
    from (t, g, ok, p) =
        ap has_run (execute_found now r name session cfg ctx elevated wake act t g ok)
        ∙ (decide-has_run (charge now r session).0 (apply_elevated now elevated (level t)) wake
              (act t)).1
            ((apply_elevated_iff now elevated (level t) wake).1 p)
