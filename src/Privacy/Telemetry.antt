-- ===== src/Privacy/Telemetry.antt =====
-- modules/privacy/zk_telemetry.go: the queue of execution traces and the registry of proofs.
use node_decent_system.Prelude.{none, some, [], ◌++◌, Result, ok, err, Bytes, Error}
use node_decent_system.GoMap.{GoMap}
use node_decent_system.GoMap
use node_decent_system.Chan.{Chan, make_chan, receive}

pub record ExecutionTrace : Type 0 where
  pub tx_id : Bytes
  pub jurisdiction_code : Bytes
  pub pre_state_root : Bytes
  pub post_state_root : Bytes
  pub payload_hash : Bytes

pub record ZkProof : Type 0 where
  pub tx_id : Bytes
  pub proof : Bytes

-- `Prover`, `Start` and the number of workers are in the steps below.
pub record TelemetryPipeline : Type 0 where
  pub trace_queue : Chan ExecutionTrace
  pub registry : GoMap ZkProof

unfoldable pub new_telemetry_pipeline : TelemetryPipeline
new_telemetry_pipeline = record { trace_queue = make_chan 10000; registry = [] }

-- `MockProver.GenerateProof`
unfoldable pub generate_proof : (Bytes → Bytes) → ExecutionTrace → Result Error ZkProof
generate_proof sha256 t =
    ok (record { tx_id = t.tx_id; proof = sha256 (t.pre_state_root ++ t.post_state_root) })

store_proof : TelemetryPipeline → ExecutionTrace → Result Error ZkProof → TelemetryPipeline
store_proof p t (err e) = p
store_proof p t (ok proof) = record p { registry = GoMap.put p.registry t.tx_id proof }

-- One round of a worker: the oldest trace, if there is one, is proved and its proof registered; a
-- failed proof drops the trace.
unfoldable pub work :
    (ExecutionTrace → Result Error ZkProof) → TelemetryPipeline → TelemetryPipeline
unfolding store_proof
work prover p = elim (receive p.trace_queue) [
  | none ↦ p
  | some (t, rest) ↦ store_proof (record p { trace_queue = rest }) t (prover t)
]
