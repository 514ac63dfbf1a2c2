-- ===== src/Keypair/Laws/Transcript.antt =====
-- Proofs about the hybrid combiner of src/keypair.rs.
use evnx_crypto.Base.{◌+◌, ◌≡◌, ◌++◌, length, length-append, append-injective, arith, ap}
use evnx_crypto.Base.Bytes.{Bytes, zeros}
use evnx_crypto.Crates.{Crates}
use evnx_crypto.Crates.Coding.{IsWiping}
use evnx_crypto.Keypair.Hybrid.{hybrid_ikm, hybrid_wrap_key}
use evnx_crypto.Zeroize.{zeroize_slice}

pub length-hybrid_ikm :
    (ssm ssx ct eph rec : Bytes)
    → length (hybrid_ikm ssm ssx ct eph rec)
      ≡ length ssm + length ssx + length ct + length eph + length rec
unfolding hybrid_ikm
length-hybrid_ikm ssm ssx ct eph rec = omega (
  arith,
  length-append ssm (ssx ++ (ct ++ (eph ++ rec))),
  length-append ssx (ct ++ (eph ++ rec)),
  length-append ct (eph ++ rec),
  length-append eph rec,
)

-- Where both shared secrets and both X25519 public keys have 32 bytes, the input of the combiner
-- determines all of its five parts, whatever the lengths of the ML-KEM ciphertexts are.
pub hybrid_ikm-injective :
    (ssm ssm' ssx ssx' ct ct' eph eph' rec rec' : Bytes)
    → length ssm ≡ 32
    → length ssm' ≡ 32
    → length ssx ≡ 32
    → length ssx' ≡ 32
    → length eph ≡ 32
    → length eph' ≡ 32
    → length rec ≡ 32
    → length rec' ≡ 32
    → hybrid_ikm ssm ssx ct eph rec ≡ hybrid_ikm ssm' ssx' ct' eph' rec'
    → (ssm ≡ ssm') × (ssx ≡ ssx') × (ct ≡ ct') × (eph ≡ eph') × (rec ≡ rec')
unfolding hybrid_ikm
hybrid_ikm-injective ssm ssm' ssx ssx' ct ct' eph eph' rec rec' m m' x x' p p' r r' e =
    let n : length ct ≡ length ct' = omega (
      arith,
      ap length e,
      length-hybrid_ikm ssm ssx ct eph rec,
      length-hybrid_ikm ssm' ssx' ct' eph' rec',
    ) in
    let (e1, t1) = append-injective ssm ssm' _ _ (omega arith) e in
    let (e2, t2) = append-injective ssx ssx' _ _ (omega arith) t1 in
    let (e3, t3) = append-injective ct ct' _ _ n t2 in
    let (e4, e5) = append-injective eph eph' rec rec' (omega arith) t3 in (e1, e2, e3, e4, e5)

-- With a `zeroize` that behaves as documented: on every path of the combiner, that of a failed
-- derivation included, the buffer that held the two secrets and the transcript is all zeros, in its
-- full length, when it is released.
hybrid_wrap_key_wipes :
    (c : Crates) (ssm ssx ct eph rec : Bytes)
    → IsWiping c.zeroize
    → (hybrid_wrap_key c ssm ssx ct eph rec).1
      ≡ zeros (length ssm + length ssx + length ct + length eph + length rec)
unfolding hybrid_wrap_key zeroize_slice
hybrid_wrap_key_wipes c ssm ssx ct eph rec w =
    rw (w.zeroize-zeros (hybrid_ikm ssm ssx ct eph rec), length-hybrid_ikm)
