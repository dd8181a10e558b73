-- ===== src/Qwen.antt =====
-- The graph of the Qwen model, src/models/qwen/model.cpp, and the weights by name that it takes from
-- `tensor_map_` of src/models/model_impl.cpp. What `std::to_string` prints for a block is an argument.
pub mod Missing
use zinfer_lm.Base.{
  ℕ, zero, suc, ◌+◌, Bool, true, false, Option, none, some, List, [], ◌∷◌, ◌++◌, Result, ok, err,
  ◌>>=◌, codes, find, bytes_eq,
}
use zinfer_lm.Gguf.Loader.{ModelConfig}
use zinfer_lm.Layers.{
  Ggml, i32, f16, Layer, SwigLu, GroupedAttentionHead, call, token_embedding, token_unembedding,
  swiglu, grouped_attention,
}

-- `input_tensors_`.
pub record InputTensors {ℓ} (T : Type ℓ) : Type ℓ where
  pub input : T
  pub positions : T
  pub mask : T

-- `create_input_tensors`.
unfoldable pub create_input_tensors {ℓ} : {T : Type ℓ} → Ggml T → ℕ → ℕ → InputTensors T
create_input_tensors g n_tokens max_len = record {
  input = g.set_name (g.set_input (g.new_tensor_1d i32 n_tokens)) (codes "input");
  positions = g.set_name (g.set_input (g.new_tensor_1d i32 n_tokens)) (codes "positions");
  mask = g.set_name (g.set_input (g.new_tensor_2d f16 max_len n_tokens)) (codes "mask");
}

-- The name of a block, for what `std::to_string` prints.
unfoldable pub block_name : (ℕ → List ℕ) → ℕ → List ℕ
block_name to_string i = codes "blk." ++ to_string i

-- `get_tensor_`.
unfoldable pub get_tensor {ℓ} : {T : Type ℓ} → List (List ℕ × T) → List ℕ → Option T
get_tensor tensor_map name = find name tensor_map

module _ {ℓ} {T : Type ℓ} (tensor_map : List (List ℕ × T)) (config : ModelConfig) where
  -- The members of the base class that `create_embedding_layer_` leaves at their initial values.
  unfoldable pub embedding_layer : Layer T
  embedding_layer = record {
    residual = false;
    pre_norm_gamma = none;
    pre_norm_eps = 0;
    name = codes "TokenEmbedding";
  }

  -- `create_output_layer_`, its base class and its weight.
  unfoldable pub output_layer : List ℕ → Layer T
  unfolding get_tensor
  output_layer layer_name = record {
    residual = false;
    pre_norm_gamma = get_tensor tensor_map (layer_name ++ codes "_norm.weight");
    pre_norm_eps = config.rms_eps;
    name = codes "TokenUnembedding";
  }

  -- `create_attention_layer_`.
  unfoldable pub create_attention_layer : T → T → List ℕ → ℕ → GroupedAttentionHead T
  unfolding get_tensor
  create_attention_layer positions mask layer_name block_id = record {
    layer = record {
      residual = true;
      pre_norm_gamma = get_tensor tensor_map (layer_name ++ codes "_norm.weight");
      pre_norm_eps = config.rms_eps;
      name = codes "GroupedAttention";
    };
    block_id = block_id;
    q_w = get_tensor tensor_map (layer_name ++ codes "_q.weight");
    q_b = get_tensor tensor_map (layer_name ++ codes "_q.bias");
    k_w = get_tensor tensor_map (layer_name ++ codes "_k.weight");
    k_b = get_tensor tensor_map (layer_name ++ codes "_k.bias");
    v_w = get_tensor tensor_map (layer_name ++ codes "_v.weight");
    v_b = get_tensor tensor_map (layer_name ++ codes "_v.bias");
    out_w = get_tensor tensor_map (layer_name ++ codes "_output.weight");
    rope_freq_base = config.rope_freq_base;
    apply_rope = true;
    n_heads = config.nheads;
    n_kv = config.nkv;
    positions = positions;
    mask = mask;
  }

  -- `create_ffn_layer_`.
  unfoldable pub create_ffn_layer : List ℕ → SwigLu T
  unfolding get_tensor
  create_ffn_layer layer_name = record {
    layer = record {
      residual = true;
      pre_norm_gamma = get_tensor tensor_map (layer_name ++ codes "_norm.weight");
      pre_norm_eps = config.rms_eps;
      name = codes "ffn";
    };
    w_gate = get_tensor tensor_map (layer_name ++ codes "_gate.weight");
    w_up = get_tensor tensor_map (layer_name ++ codes "_up.weight");
    w_down = get_tensor tensor_map (layer_name ++ codes "_down.weight");
  }

  module _ (g : Ggml T) (to_string : ℕ → List ℕ) where
    -- One round of the loop of `build_graph`.
    unfoldable pub build_block : InputTensors T → ℕ → T → Result T
    unfolding block_name create_attention_layer create_ffn_layer grouped_attention swiglu call
    build_block inputs i cur = do
      let attn =
          create_attention_layer inputs.positions inputs.mask
            (block_name to_string i ++ codes ".attn") i
      attended ← call g attn.layer (grouped_attention g attn) cur
      let ffn = create_ffn_layer (block_name to_string i ++ codes ".ffn")
      call g ffn.layer (swiglu g ffn) attended

    -- The loop, for the rounds that are left, in round `i`.
    unfoldable pub build_blocks : InputTensors T → ℕ → ℕ → T → Result T
    unfolding build_block
    build_blocks inputs zero i cur = ok cur
    build_blocks inputs (suc n) i cur = build_block inputs i cur >>= build_blocks inputs n (i + 1)

    -- `build_graph`.
    unfoldable pub build_graph : InputTensors T → Result T
    unfolding build_blocks embedding_layer output_layer token_embedding token_unembedding
    build_graph inputs = do
      embedded ←
          call g embedding_layer
            (token_embedding g (get_tensor tensor_map (codes "token_embd" ++ codes ".weight")))
            inputs.input
      cur ← build_blocks inputs config.n_blocks 0 embedded
      call g (output_layer (codes "output"))
          (token_unembedding g (get_tensor tensor_map (codes "output" ++ codes ".weight"))) cur
