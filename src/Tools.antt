-- ===== src/Tools.antt =====
-- The tool of tools/tokenize/tokenize.cpp and the start of the one of tools/cli/cli.cpp: their
-- arguments, and how they end. What the system answers for the path of a file is an argument, and so
-- is what a number prints as.
pub mod Tokenize
pub mod Start
use zinfer_lm.Base.{
  ℕ, Bool, true, false, Option, none, some, List, [], ◌∷◌, ◌++◌, Result, ok, err, ◌>>=◌, codes,
  bytes_beq, if◌then◌else◌,
}
use zinfer_lm.Gguf.Value.{Primitive}
use zinfer_lm.Gguf.Loader.{tokenizer_info}
use zinfer_lm.Tokenizer.State.{Tokenizer, Patterns, for_model, tokenize, decode}
use zinfer_lm.Models.{ModelImpl, Platform, File, load, unload, instance_of}

-- What a tool ends with, its exit code and what its `main` has printed to the standard output, beside
-- what `Model::instance_` holds.
abbrev pub Ended : Type 0
Ended = Result (ℕ × List ℕ) × Option ModelImpl

-- What a program does with the model that it has loaded, and the end, where the model is unloaded.
abbrev pub finished : Result (List ℕ) → Option ModelImpl → Ended
unfolding unload
finished (err fault) s = (err fault, s)
finished (ok text) s = (ok (0, text), (unload s).1)

abbrev pub run_with : (ModelImpl → Result (List ℕ)) → Result ModelImpl × Option ModelImpl → Ended
run_with body (err fault, s) = (err fault, s)
run_with body (ok m, s) = finished (body m) s

-- A model that is not loaded ends the tools with 1.
abbrev pub if_loaded : (ModelImpl → Result (List ℕ)) → Result Bool × Option ModelImpl → Ended
unfolding instance_of
if_loaded body (err fault, s) = (err fault, s)
if_loaded body (ok false, s) = (ok (1, []), s)
if_loaded body (ok true, s) = run_with body (instance_of s)

-- The loop over the arguments: the file name behind the last `-f` that has something behind it.
unfoldable pub find_filename : List (List ℕ) → List ℕ → List ℕ
find_filename [] filename = filename
find_filename (arg ∷ []) filename = filename
find_filename (arg ∷ next ∷ args) filename =
    let behind = find_filename args next in
    let further = find_filename (next ∷ args) filename in
    if bytes_beq arg (codes "-f") then behind else further

-- A line of the output.
unfoldable pub token_line : (ℕ → List ℕ) → Tokenizer → ℕ → List ℕ
token_line decimal t id = decimal id ++ (codes " -> '" ++ (decode t id ++ (codes "'" ++ 10 ∷ [])))

unfoldable pub token_lines : (ℕ → List ℕ) → Tokenizer → List ℕ → List ℕ
unfolding token_line
token_lines decimal t [] = []
token_lines decimal t (id ∷ ids) = token_line decimal t id ++ token_lines decimal t ids

module _ (platform : Platform) (type_name decimal : ℕ → List ℕ) (format : Primitive → List ℕ)
    (patterns : Patterns) (text_file : List ℕ → Option (List ℕ)) (model_file : List ℕ → File) where
  -- The text that is printed for a prompt.
  unfoldable pub tokenize_prompt : List ℕ → ModelImpl → Result (List ℕ)
  tokenize_prompt prompt m = do
    info ← tokenizer_info format m.loader
    t ← for_model patterns info
    (ids, t') ← tokenize t prompt
    ok (token_lines decimal t' ids)

  abbrev pub with_prompt : List ℕ → Option (List ℕ) → Option ModelImpl → Ended
  unfolding load tokenize_prompt
  with_prompt model_path none s = (ok (1, []), s)
  with_prompt model_path (some prompt) s =
      if_loaded (tokenize_prompt prompt) (load platform type_name (model_file model_path) s)

  abbrev pub with_filename : List ℕ → List ℕ → Option ModelImpl → Ended
  with_filename model_path [] s = (ok (1, []), s)
  with_filename model_path (c ∷ cs) s = with_prompt model_path (text_file (c ∷ cs)) s

  -- `main` of the tokenize tool.
  unfoldable pub tokenize_main : List (List ℕ) → Option ModelImpl → Ended
  unfolding find_filename with_prompt
  tokenize_main (program ∷ model_path ∷ a ∷ b ∷ args) s =
      with_filename model_path (find_filename (a ∷ b ∷ args) []) s
  tokenize_main argv s = (ok (1, []), s)
