-- ===== src/Gguf/Loader/File.antt =====
-- A whole file through `load_gguf_file`.
use zinfer_lm.Base.{
  ℕ, ◌+◌, ◌-◌, ◌^◌, ◌<◌, ◌≡◌, refl, ◌∙◌, Option, none, some, List, [], ◌++◌, arith, length, ok, err,
  bad_variant_access, ◌>>=◌, All, find, bytes_eq, codes,
}
use zinfer_lm.Gguf.Value.{primitive, u32, value_u8}
use zinfer_lm.Gguf.Entry.{Metadata, empty_metadata, TensorInfo}
use zinfer_lm.Gguf.Entry.RoundTrip.{IsWritableEntry, IsWritableTensor}
use zinfer_lm.Gguf.Loader.{
  Header, get_metadata, gguf_metadata, gguf_tensors_info, align_address, GgufLoader, load_mapped,
}
use zinfer_lm.Gguf.Loader.Alignment.{
  alignment, IsLeastMultiple, align_address_least, align_address_u32,
}
use zinfer_lm.Gguf.Loader.RoundTrip.{
  encode_entries, encode_tensors, encode_file, first_entry, first_tensor, insert_entries,
  insert_tensors, find-insert_entries, find-insert_tensors, metadata_loop-encode,
  tensors_loop-encode, IsHeader, header_round_trip, int_rounds_small,
}

-- The entry that a key stands for.
abbrev pub entry_or_empty : Option Metadata → Metadata
entry_or_empty none = empty_metadata
entry_or_empty (some m) = m

get_metadata-insert_entries :
    (k : List ℕ) (es : List Metadata)
    → get_metadata (insert_entries es []) k ≡ entry_or_empty (first_entry k es)
unfolding get_metadata find
get_metadata-insert_entries k es = ground (arith, find-insert_entries k es [])

module _ (h : Header) (es : List Metadata) (ts : List TensorInfo) (tensor_data : List ℕ) where
  loads :
      (base : ℕ)
      → IsHeader h es ts
      → All IsWritableEntry es
      → All IsWritableTensor ts
      → load_mapped base (encode_file h es ts tensor_data) ≡ (
          align_address
            (insert_entries es [])
            (base + (length (encode_file h es ts tensor_data) - length tensor_data))
          >>= λ start. ok (record {
            header = h;
            metadata = insert_entries es [];
            tensors = insert_tensors ts [];
            tensor_base = start;
          }))
  unfolding load_mapped gguf_metadata gguf_tensors_info
  loads base wh we wt =
      let body = encode_entries es ++ (encode_tensors ts ++ tensor_data) in
      let (header, behind) = header_round_trip h es ts body wh in
      rw (
        header,
        behind,
        wh.entries_counted,
        int_rounds_small (length es) wh.entries_fit,
        metadata_loop-encode es [] (encode_tensors ts ++ tensor_data) we,
        wh.tensors_counted,
        tensors_loop-encode ts [] tensor_data wt,
      )

  -- A file of well-formed entries, with fewer than 2 ^ 31 metadata entries, in which the key
  -- `general.alignment` is missing, or its first entry is a `uint8_t`, a string or an array, is loaded
  -- without an error, where the address space leaves room for the file and its alignment behind
  -- `base`. The header is the file's; a key finds its first entry and a name its first tensor, and no
  -- other key or name is found; and the tensor data begins at the least multiple of the alignment that
  -- is not below the end of the tensor entries, where all but a positive `uint8_t` counts as 32.
  pub load_mapped-encode :
      (base a : ℕ)
      → IsHeader h es ts
      → All IsWritableEntry es
      → All IsWritableTensor ts
      → value_u8 (entry_or_empty (first_entry (codes "general.alignment") es)).val ≡ ok a
      → base + length (encode_file h es ts tensor_data) + alignment a < 2 ^ 64
      → (g : GgufLoader) × (load_mapped base (encode_file h es ts tensor_data) ≡ ok g)
        × (g.header ≡ h)
        × ((k : List ℕ) → find k g.metadata ≡ first_entry k es)
        × ((k : List ℕ) → find k g.tensors ≡ first_tensor k ts)
        × IsLeastMultiple
            (alignment a)
            (base + (length (encode_file h es ts tensor_data) - length tensor_data))
            g.tensor_base
  unfolding find
  load_mapped-encode base a wh we wt ha fits =
      let (start, e, least) =
        align_address_least (insert_entries es []) a
          (base + (length (encode_file h es ts tensor_data) - length tensor_data))
          (rw (get_metadata-insert_entries (codes "general.alignment") es) ha) (omega arith) in
      (
        record {
          header = h;
          metadata = insert_entries es [];
          tensors = insert_tensors ts [];
          tensor_base = start;
        },
        loads base wh we wt ∙ rw e,
        refl,
        λ k. find-insert_entries k es [],
        λ k. find-insert_tensors k ts [],
        least,
      )

  -- A file of well-formed entries, with fewer than 2 ^ 31 metadata entries, whose first entry of the key
  -- `general.alignment` gives a `uint32_t`, the type that the GGUF format gives this key, is not
  -- loaded: `load_gguf_file` throws `bad_variant_access`, whatever the alignment, the other entries,
  -- the tensors and the address are.
  pub load_mapped-encode_u32 :
      (base n s : ℕ) (m : Metadata)
      → IsHeader h es ts
      → All IsWritableEntry es
      → All IsWritableTensor ts
      → first_entry (codes "general.alignment") es ≡ some m
      → m.val ≡ primitive (u32 n) s
      → load_mapped base (encode_file h es ts tensor_data) ≡ err bad_variant_access
  load_mapped-encode_u32 base n s m wh we wt found value =
      let entry : (get_metadata (insert_entries es []) (codes "general.alignment")).val
          ≡ primitive (u32 n) s =
        rw (get_metadata-insert_entries (codes "general.alignment") es, found) value in
      loads base wh we wt
      ∙ rw (
          align_address_u32 (insert_entries es []) n s
            (base + (length (encode_file h es ts tensor_data) - length tensor_data)) entry)
