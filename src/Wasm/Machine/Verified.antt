-- ===== src/Wasm/Machine/Verified.antt =====
-- A login of the browser whose last step succeeded, over whatever happens in between.
use evnx_crypto.Base.Bytes.{Bytes, Text, all_zero}
use evnx_crypto.Base.Outcome.{ok, Outcome-cases}
use evnx_crypto.Base.{ℕ, List, some, ◌≡◌, inl, inr, true, false, length, arith, Option-cases}
use evnx_crypto.Crates.{Crates, Rng}
use evnx_crypto.Encoding.{b64_decode}
use evnx_crypto.Srp.Steps
use evnx_crypto.Wasm.Calls
use evnx_crypto.Wasm.Calls.{salt_from_b64}
use evnx_crypto.Wasm.Handles.{JsError, SrpEphemeralHandle, SrpProofHandle}
use evnx_crypto.Wasm.Machine.Classes.{proof}
use evnx_crypto.Wasm.Machine.Lasting.{AllKeep, run_all_keeps}
use evnx_crypto.Wasm.Machine.Memory.{Memory, Call, Reply, fresh}
use evnx_crypto.Wasm.Machine.Restored.{get_slot_new}
use evnx_crypto.Wasm.Machine.Run.{run, run_all}
use evnx_crypto.Wasm.Machine.Slots.{get_slot}
use evnx_crypto.Wasm.Sizes.{read_salt}

module _ (c : Crates) where
  -- The exchange that these texts and this private ephemeral give, with a server whose public value
  -- is not zero.
  pub record IsExchange (email password salt server_b : Text) (private_a : Bytes)
      (x : c.srp.Verifier) : Type 0 where
    pub password_bytes : Bytes
    pub salt_bytes : Bytes
    pub b : Bytes
    pub password_read : c.base64.decode password ≡ some password_bytes
    pub salt_read : c.base64.decode salt ≡ some salt_bytes
    pub salt_length : length salt_bytes ≡ 32
    pub server_b_read : c.hex.decode server_b ≡ some b
    pub nonzero : all_zero b ≡ false
    pub accepted : c.srp.process_reply private_a email password_bytes salt_bytes b ≡ inr x

  proof-IsExchange :
      (email password salt server_b : Text) (e : SrpEphemeralHandle) {p : SrpProofHandle c}
      → Calls.compute_client_proof c email password salt server_b e ≡ ok p
      → IsExchange email password salt server_b e.inner.private_a p.inner.verifier
  unfolding Calls.compute_client_proof b64_decode Steps.compute_client_proof
  proof-IsExchange email password salt server_b e made =
      elim (Option-cases (c.base64.decode password)) [
        | inl none_read ↦ absurd (ground arith)
        | inr (pw, ep) ↦ elim (Outcome-cases (salt_from_b64 c salt)) [
          | inr (inl (_, es)) ↦ absurd (ground arith)
          | inr (inr es) ↦ absurd (ground arith)
          | inl (sa, es) ↦ elim (Option-cases (c.hex.decode server_b)) [
            | inl none_read ↦ absurd (ground arith)
            | inr (b, eb) ↦ record {
              password_bytes = pw;
              salt_bytes = sa;
              b = b;
              password_read = ep;
              salt_read = (read_salt c salt es).0;
              salt_length = (read_salt c salt es).1;
              server_b_read = eb;
              nonzero = ground arith;
              accepted = ground arith;
            }
          ]
        ]
      ]

  verified :
      (m2_text : Text) (p : SrpProofHandle c)
      → Calls.verify_server_proof c m2_text p ≡ ok tt
      → (m2 : Bytes) × (c.hex.decode m2_text ≡ some m2)
        × (c.srp.verify_server p.inner.verifier m2 ≡ true)
  unfolding Calls.verify_server_proof Steps.verify_server_proof
  verified m2_text p e = elim (Option-cases (c.hex.decode m2_text)) [
    | inl none_read ↦ absurd (ground arith)
    | inr (m2, em) ↦ (m2, em, ground arith)
  ]

module _ (c : Crates) (null_pointer : JsError) where
  -- A call that made a proof had an ephemeral behind its handle.
  proving_ephemeral :
      (m : Memory c) (email password salt server_b : Text) (i j : ℕ)
      → (run c null_pointer m (Call.compute_client_proof email password salt server_b i)).0
        ≡ ok (Reply.handle j)
      → (e : SrpEphemeralHandle) × (p : SrpProofHandle c) × (get_slot i m.ephemerals ≡ some e)
        × (Calls.compute_client_proof c email password salt server_b e ≡ ok p)
        × (get_slot j
              (run c null_pointer m
                (Call.compute_client_proof email password salt server_b i)).1.proofs
            ≡ some p)
  unfolding run
  proving_ephemeral m email password salt server_b i j h =
      elim (Option-cases (get_slot i m.ephemerals)) [
        | inl none_at ↦ absurd (ground arith)
        | inr (e, at) ↦
            elim (Outcome-cases (Calls.compute_client_proof c email password salt server_b e)) [
              | inr (inl (_, failed)) ↦ absurd (ground arith)
              | inr (inr failed) ↦ absurd (ground arith)
              | inl (p, made) ↦ (e, p, at, made, ground (arith, get_slot_new m.proofs p))
            ]
      ]

  verifying_proof :
      (m : Memory c) (m2 : Text) (j : ℕ) (p : SrpProofHandle c)
      → get_slot j m.proofs ≡ some p
      → (run c null_pointer m (Call.verify_server_proof m2 j)).0 ≡ ok Reply.done
      → Calls.verify_server_proof c m2 p ≡ ok tt
  unfolding run
  verifying_proof m m2 j p at h = elim (Outcome-cases (Calls.verify_server_proof c m2 p)) [
    | inl (_, e) ↦ e
    | inr (inl (_, failed)) ↦ absurd (ground arith)
    | inr (inr failed) ↦ absurd (ground arith)
  ]

  -- Where, after any sequence of calls from JavaScript on a fresh memory, a call gives out a proof
  -- handle, and after any further calls that do not destroy it the server's proof is verified with
  -- that handle, the texts of the password and the salt were base64, the salt one of 32 bytes, the
  -- text of the server's public value was hex of a value that is not all zero, the exchange of the
  -- `srp` crate on these bytes and on the private scalar of the ephemeral handle accepted it, and
  -- that same exchange verifies the bytes of which the server's proof was the hex.
  pub verified_login :
      (g : Rng c) (before between : List Call) (email password salt server_b server_proof : Text)
      (i j : ℕ)
      → AllKeep proof j between
      → let m = run_all c null_pointer before (fresh c g) in
        let (proved, m1) =
          run c null_pointer m (Call.compute_client_proof email password salt server_b i) in
        let m2 = run_all c null_pointer between m1 in
        proved ≡ ok (Reply.handle j)
        → (run c null_pointer m2 (Call.verify_server_proof server_proof j)).0 ≡ ok Reply.done
        → (e : SrpEphemeralHandle) × (x : c.srp.Verifier) × (sent : Bytes) × (get_slot i
              m.ephemerals
            ≡ some e)
          × IsExchange c email password salt server_b e.inner.private_a x
          × (c.hex.decode server_proof ≡ some sent)
          × (c.srp.verify_server x sent ≡ true)
  verified_login g before between email password salt server_b server_proof i j keep proved done =
      let m = run_all c null_pointer before (fresh c g) in
      let m1 =
        (run c null_pointer m (Call.compute_client_proof email password salt server_b i)).1 in
      let (e, p, at, made, has) = proving_ephemeral m email password salt server_b i j proved in
      let m2 = run_all c null_pointer between m1 in
      let kept = run_all_keeps c null_pointer j proof p between m1 keep has in
      let (sent, read, accepted) =
        verified c server_proof p (verifying_proof m2 server_proof j p kept done) in
      (
        e,
        p.inner.verifier,
        sent,
        at,
        proof-IsExchange c email password salt server_b e made,
        read,
        accepted,
      )
