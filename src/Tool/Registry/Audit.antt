-- ===== src/Tool/Registry/Audit.antt =====
-- internal/tool/registry.go: what Execute logs.
use sclaw.Prelude.{ℕ, ◌+◌, ◌≡◌, Bool, true, false, List, [], ◌∷◌, ◌⊎◌, arith, if◌then◌else◌}
use sclaw.Tool.Registry.{
  Tool, Registry, Reply, Execution, AuditEvent, tool_result, after_request, ToolError,
}
use sclaw.Tool.Registry.Gate.{has_run}

-- The results in a log.
abbrev pub results : List AuditEvent → ℕ
results [] = 0
results (tool_result failed ∷ log) = results log + 1
results (_ ∷ log) = results log

-- What is to be logged: a result exactly if the tool ran, and nothing without a logger.
Logs : Bool → Execution → Type 0
Logs audited e =
    (audited ≡ true → results e.log ≡ (if has_run e.verdict then 1 else 0))
    × (audited ≡ false → e.log ≡ [])

after_request-Logs :
    (r : Registry) (reply : Reply) (o : ToolError ⊎ Bool) → Logs r.audited (after_request r reply o)
unfolding after_request Logs
after_request-Logs r reply o = ground arith
