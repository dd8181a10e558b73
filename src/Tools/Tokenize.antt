-- ===== src/Tools/Tokenize.antt =====
-- What the tool of tools/tokenize/tokenize.cpp prints, and how it fails.
use zinfer_lm.Base.{ℕ, ◌≡◌, true, Option, none, some, List, [], ◌∷◌, map, concat, ok}
use zinfer_lm.Gguf.Value.{Primitive}
use zinfer_lm.Gguf.Loader.{TokenizerInfo, tokenizer_info}
use zinfer_lm.Tokenizer.ByteMap.Inverse.{AreBytes}
use zinfer_lm.Tokenizer.State.{Tokenizer, Patterns, decode}
use zinfer_lm.Tokenizer.State.Vocabulary.{IsVocabulary, for_model-tokenize}
use zinfer_lm.Models.{ModelImpl, Platform, File, load, unload, instance_of}
use zinfer_lm.Tools.{Ended, find_filename, token_lines, tokenize_prompt, tokenize_main}

module _ (platform : Platform) (type_name decimal : ℕ → List ℕ) (format : Primitive → List ℕ)
    (patterns : Patterns) (text_file : List ℕ → Option (List ℕ)) (model_file : List ℕ → File) where
  abbrev run_tool : List (List ℕ) → Option ModelImpl → Ended
  run_tool = tokenize_main platform type_name decimal format patterns text_file model_file

  -- For arguments that name a text file that can be read and a model that loads, whose vocabulary has
  -- the form that a tokenizer needs, the tool ends with 0 and prints one line for each id: the ids
  -- decode, one behind the other, to the text of the file. No model is left in `instance_`.
  pub tokenize_main-text :
      (program model_path a b : List ℕ) (args : List (List ℕ)) (c : ℕ) (cs prompt : List ℕ)
      (s : Option ModelImpl) (m : ModelImpl) (info : TokenizerInfo)
      → find_filename (a ∷ b ∷ args) [] ≡ c ∷ cs
      → text_file (c ∷ cs) ≡ some prompt
      → AreBytes prompt
      → load platform type_name (model_file model_path) s ≡ (ok true, some m)
      → tokenizer_info format m.loader ≡ ok info
      → IsVocabulary patterns info
      → (t : Tokenizer) × (ids : List ℕ) × (run_tool (program ∷ model_path ∷ a ∷ b ∷ args) s
          ≡ (ok (0, token_lines decimal t ids), none))
        × (concat (map (decode t) ids) ≡ prompt)
  unfolding tokenize_main tokenize_prompt instance_of unload
  tokenize_main-text program model_path a b args c cs prompt s m info named readable bytes loaded
        has_info vocabulary =
      let (t, ids, made, tokenized, decoded) =
        for_model-tokenize patterns info vocabulary prompt bytes in
      (t, ids, rw (named, readable, loaded, has_info, made, tokenized), decoded)
