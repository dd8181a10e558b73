-- ===== src/Tools/Start.antt =====
-- How the programs of tools/cli/cli.cpp, tools/debug/debug.cpp and tools/serve/main.cpp start from
-- their arguments. What a chat answers, what the server does while it runs, and what is printed of a
-- number are arguments.
use zinfer_lm.Base.{ℕ, Bool, Option, List, [], ◌∷◌, ◌++◌, length, Result, ok, err, ◌>>=◌, codes}
use zinfer_lm.Gguf.Value.{Primitive}
use zinfer_lm.Gguf.Loader.{ModelConfig, model_config}
use zinfer_lm.Gguf.Info.{ModelInfo, info, tensor_infos}
use zinfer_lm.Server.{ChatMessage}
use zinfer_lm.Models.{ModelImpl, Platform, File, load, instance_of}
use zinfer_lm.Tools.{Ended, run_with, if_loaded}

abbrev pub line : List ℕ → List ℕ → List ℕ
line name text = name ++ (codes ": " ++ (text ++ 10 ∷ []))

-- What the command line tells of a model, with the number of its tensors.
unfoldable pub banner : (ℕ → List ℕ) → ModelInfo → ModelConfig → ℕ → List ℕ
banner decimal i c n =
    line (codes "Name") i.name
    ++ (line (codes "Version") i.version
        ++ (line (codes "Architecture") i.architecture
            ++ (line (codes "File Type") i.file_type
                ++ (line (codes "Layers") (decimal c.n_blocks)
                    ++ (line (codes "Max Context") (decimal c.max_context_len)
                        ++ line (codes "Tensors Count") (decimal n))))))

module _ (platform : Platform) (type_name decimal : ℕ → List ℕ) (format : Primitive → List ℕ)
    (model_file : List ℕ → File) where
  -- `main` of the command line up to its loop, and what the loop prints.
  unfoldable pub cli_start : (ModelImpl → Result (List ℕ)) → ModelImpl → Result (List ℕ)
  unfolding banner
  cli_start loop m = do
    config ← model_config m.loader
    i ← info format m.loader
    text ← loop m
    ok (banner decimal i config (length (tensor_infos type_name m.loader)) ++ text)

  unfoldable pub cli_main : (ModelImpl → Result (List ℕ)) → List (List ℕ) → Option ModelImpl → Ended
  unfolding cli_start load
  cli_main loop (program ∷ model_path ∷ args) s =
      if_loaded (cli_start loop) (load platform type_name (model_file model_path) s)
  cli_main loop argv s = (ok (1, []), s)

  -- `main` of the debug tool: one chat with the message `hi`.
  abbrev pub hi : List ChatMessage
  hi = record { role = codes "user"; message = codes "hi" } ∷ []

  abbrev pub debug_chat :
      (ModelImpl → List ChatMessage → Result (List ℕ)) → ModelImpl → Result (List ℕ)
  debug_chat ask m = ask m hi >>= λ output. ok (output ++ 10 ∷ [])

  unfoldable pub debug_main :
      (ModelImpl → List ChatMessage → Result (List ℕ)) → List (List ℕ) → Option ModelImpl → Ended
  unfolding load
  debug_main ask (program ∷ model_path ∷ args) s =
      if_loaded (debug_chat ask) (load platform type_name (model_file model_path) s)
  debug_main ask argv s = (ok (1, []), s)

  -- `main` of the server, which does not look at what `load` answers.
  abbrev pub path_of : List (List ℕ) → List ℕ
  path_of (program ∷ model_path ∷ args) = model_path
  path_of argv = []

  abbrev pub serve_with : (ModelImpl → Result (List ℕ)) → Result Bool × Option ModelImpl → Ended
  unfolding instance_of
  serve_with run (err fault, s) = (err fault, s)
  serve_with run (ok loaded, s) = run_with run (instance_of s)

  unfoldable pub serve : (ModelImpl → Result (List ℕ)) → List ℕ → ModelImpl → Result (List ℕ)
  serve run model_path m = do
    i ← info format m.loader
    text ← run m
    ok (
        line (codes "Loading model from file") model_path
        ++ (line (codes "Model Loaded") i.name ++ text))

  unfoldable pub serve_main :
      (ModelImpl → Result (List ℕ)) → List (List ℕ) → Option ModelImpl → Ended
  unfolding serve_with serve load
  serve_main run argv s =
      serve_with (serve run (path_of argv)) (load platform type_name (model_file (path_of argv)) s)
