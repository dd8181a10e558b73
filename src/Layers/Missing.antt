-- ===== src/Layers/Missing.antt =====
-- What the layers do with a weight that is missing.
use zinfer_lm.Base.{
  ℕ, ◌≡◌, refl, ap, Option, none, List, Result, ok, err, Fault, wild, ◌>>=◌, codes,
}
use zinfer_lm.Layers.{
  Ggml, Layer, SwigLu, GroupedAttentionHead, deref, call, mul_weight, token_embedding, swiglu,
  project, rope, score, head_size, attend, grouped_attention,
}

-- The call ends with a fault.
abbrev pub Fails {ℓ} : {A : Type ℓ} → Result A → Type ℓ
Fails r = (f : Fault) × (r ≡ err f)

module _ {ℓ κ} {A : Type ℓ} {B : Type κ} where
  pub first-Fails : (r : Result A) (next : A → Result B) → Fails r → Fails (r >>= next)
  first-Fails r next (f, e) = (f, ap (λ r. r >>= next) e)

  pub next-Fails :
      (r : Result A) (next : A → Result B) → ((a : A) → Fails (next a)) → Fails (r >>= next)
  next-Fails (err f) next h = (f, refl)
  next-Fails (ok a) next h = h a

module _ {ℓ} {T : Type ℓ} (g : Ggml T) where
  pub mul_weight-Fails : (w : Option T) (x : T) → w ≡ none → Fails (mul_weight g w x)
  unfolding mul_weight deref
  mul_weight-Fails w x e = (wild, rw (e, deref))

  pub token_embedding-Fails : (w : Option T) (x : T) → w ≡ none → Fails (token_embedding g w x)
  unfolding token_embedding deref
  token_embedding-Fails w x e = (wild, rw (e, deref))

  pub call-Fails :
      (l : Layer T) (forward : T → Result T) (x : T)
      → ((y : T) → Fails (forward y))
      → Fails (call g l forward x)
  unfolding call
  call-Fails l forward x h = next-Fails _ _ (λ y. first-Fails _ _ (h y))

  pub swiglu_gate : (s : SwigLu T) (x : T) → s.w_gate ≡ none → Fails (swiglu g s x)
  unfolding swiglu
  swiglu_gate s x e = first-Fails _ _ (mul_weight-Fails s.w_gate x e)

  pub swiglu_up : (s : SwigLu T) (x : T) → s.w_up ≡ none → Fails (swiglu g s x)
  unfolding swiglu
  swiglu_up s x e = next-Fails _ _ (λ y. first-Fails _ _ (mul_weight-Fails s.w_up x e))

  pub swiglu_down : (s : SwigLu T) (x : T) → s.w_down ≡ none → Fails (swiglu g s x)
  unfolding swiglu
  swiglu_down s x e = next-Fails (mul_weight g s.w_gate x) _ (λ gate.
      next-Fails (mul_weight g s.w_up x) _ (λ up.
        next-Fails
          (g.mul (g.set_name (g.silu (g.set_name gate (codes "gate"))) (codes "silu"))
            (g.set_name up (codes "up")))
          _ (λ p. mul_weight-Fails s.w_down (g.set_name p (codes "swiglu")) e)))

  pub project-Fails :
      (name : List ℕ) (w b : Option T) (x : T) → w ≡ none → Fails (project g name w b x)
  unfolding project
  project-Fails name w b x e = first-Fails _ _ (mul_weight-Fails w x e)

  pub attention_q :
      (a : GroupedAttentionHead T) (x : T) → a.q_w ≡ none → Fails (grouped_attention g a x)
  unfolding grouped_attention
  attention_q a x e = first-Fails _ _ (project-Fails _ a.q_w a.q_b x e)

  pub attention_k :
      (a : GroupedAttentionHead T) (x : T) → a.k_w ≡ none → Fails (grouped_attention g a x)
  unfolding grouped_attention
  attention_k a x e = next-Fails _ _ (λ q. first-Fails _ _ (project-Fails _ a.k_w a.k_b x e))

  pub attention_v :
      (a : GroupedAttentionHead T) (x : T) → a.v_w ≡ none → Fails (grouped_attention g a x)
  unfolding grouped_attention
  attention_v a x e = next-Fails (project g (codes "Qcur") a.q_w a.q_b x) _ (λ q.
      next-Fails (project g (codes "Kcur") a.k_w a.k_b x) _
        (λ k. first-Fails _ _ (project-Fails (codes "Vcur") a.v_w a.v_b x e)))

  -- From the call of the cache on.
  pub scored-Fails :
      (a : GroupedAttentionHead T) (x : T) (d : ℕ) (qr kr v3 : T)
      → a.out_w ≡ none
      → Fails (score g a x d qr kr v3)
  unfolding score
  scored-Fails a x d qr kr v3 e =
      next-Fails (g.cached a.block_id (g.set_name kr (codes "Kcur_rope")) v3 a.positions) _
        (λ entry.
          next-Fails
            (g.flash_attn_ext (g.cont (g.permute (g.set_name qr (codes "Qcur_rope")))) entry.0
              entry.1 a.mask (g.inv_sqrt d))
            _
            (λ kqv.
              next-Fails (g.reshape_2d (g.set_name kqv (codes "KQV")) (g.ne x).ne0 (g.ne x).ne1) _
                (λ flat. first-Fails _ _ (mul_weight-Fails a.out_w flat e))))

  pub attend-Fails :
      (a : GroupedAttentionHead T) (x : T) (d : ℕ) (q k v : T)
      → a.out_w ≡ none
      → Fails (attend g a x d q k v)
  unfolding attend
  attend-Fails a x d q k v e = next-Fails (g.reshape_3d q d a.n_heads (g.ne x).ne1) _ (λ q3.
      next-Fails (g.reshape_3d k d a.n_kv (g.ne x).ne1) _ (λ k3.
        next-Fails (g.reshape_3d v d a.n_kv (g.ne x).ne1) _ (λ v3.
          next-Fails (rope g a.apply_rope q3 a.positions d a.rope_freq_base) _ (λ qr.
            next-Fails (rope g a.apply_rope k3 a.positions d a.rope_freq_base) _
              (λ kr. scored-Fails a x d qr kr v3 e)))))

  pub attention_out :
      (a : GroupedAttentionHead T) (x : T) → a.out_w ≡ none → Fails (grouped_attention g a x)
  unfolding grouped_attention
  attention_out a x e = next-Fails (project g (codes "Qcur") a.q_w a.q_b x) _ (λ q.
      next-Fails (project g (codes "Kcur") a.k_w a.k_b x) _ (λ k.
        next-Fails (project g (codes "Vcur") a.v_w a.v_b x) _
          (λ v. next-Fails (head_size (g.ne x).ne0 a.n_heads) _ (λ d. attend-Fails a x d q k v e))))
