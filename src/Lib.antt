-- ===== src/Lib.antt =====
-- Verification of ZInferLM, a C++ program that runs large language models from GGUF files.
--
-- The program loads a model file (src/model_loader/gguf), makes a tokenizer of the vocabulary that
-- the file holds (src/tokenizer), and runs inference: a worker thread (src/worker,
-- src/inference/worker.cpp) takes tasks from a queue, and each run dispatches its events to the
-- listeners of its session (src/events).
--
-- The parts and their files:
--   * Gguf: the file format. Gguf.Bytes reads numbers through a pointer, which is the list of the
--     bytes ahead of it; a read past the end is the fault `wild`. Gguf.DType has the type codes and
--     Gguf.Value the values (`MetadataValue` and its three classes: `from_ptr`, `size`, `to_string`,
--     `value<T>`, `val_array<T>`) of metadata.h and metadata.cpp; Gguf.Entry `Metadata` and
--     `TensorInfo` (tensors.cpp); Gguf.Loader the loader of gguf.cpp: `load_gguf_file` and its loops,
--     `align_address`, `get_metadata`, `model_config`, `tokenizer_info`; Gguf.Info what it tells of a
--     file: `gguf_file_type_name`, `info`, `tensor_info`.
--   * Tokenizer: `TokenizerImpl` of tokenizer_impl.cpp. Tokenizer.ByteMap is
--     `build_byte_to_unicode_map_` and `unicode_to_chars_`, Tokenizer.Trie the special tokens of
--     special_token_vocab.cpp, Tokenizer.Merge `split_and_merge_`, Tokenizer.Pretokenize
--     `pretokenize`, and Tokenizer.State the object, `for_model`, `bpe_`, `tokenize` and `decode`.
--   * Worker: `Worker` of worker.hpp with `execute_task_`: the queue, the thread and the promises.
--   * Events: `EventDispatcher` of events.cpp.
--   * Inference: `Inference::invoke` of src/inference/inference.cpp, with the events that it dispatches.
--   * Metrics: the collector of src/metrics/metrics.cpp.
--   * Streaming: the streamed response of `Session` in tools/serve/server.cpp.
--   * KvCache: `alloc_block` and the plan of `write_kv` of src/kv_cache/cache.cpp; KvCache.Start has the
--     constructor and `init`.
--   * Inputs: the positions and the mask of `QwenModel::set_inputs` in src/models/qwen/model.cpp.
--   * Sampling: `Sampler` of src/sampling/samplers.cpp; Sampling.Numbers has the operations on floating
--     point numbers that it uses, and the laws of their order.
--   * Layers: the layers of src/layers, over the calls of ggml; what the cache answers in the attention is
--     left open, since its calls do not fit the declarations of src/kv_cache/cache.h and `get_slice`
--     returns no value. Qwen: `create_input_tensors`, `build_graph` and the `create_*_layer_` functions of
--     src/models/qwen/model.cpp, with `get_tensor_` of src/models/model_impl.cpp.
--   * Predict: `predict` and `prepare` of src/inference/inference.cpp, with the graph that they keep and
--     the vector that the logits are read into.
--   * Server: the requests of tools/serve, `Session::handle_request_` of server.cpp and the handlers of
--     handlers.cpp; Server.Trace joins what a chat streams to its run, and
--     Server.Listening the session to the dispatcher.
--   * Debug: the printing of a tensor in src/engine/debug.cpp.
--   * Cli: the loop of tools/cli/cli.cpp; Cli.Printing has what it prints of a run.
--   * Models: `Model` of src/models/models.cpp and `ModelImpl` of src/models/model_impl.cpp, with
--     `create_tensor` of src/engine/tensors.cpp; Models.Load follows a file up to the tensors in ggml.
--   * Server.Connection: the life of a connection of `Session` in tools/serve/server.cpp, its strand, its
--     reads, its responses and its stream; Server.Connection.Phases has the states that it can be in.
--   * Chat: `Chat::invoke` of src/chat/chat.cpp, the templates of src/chat/chat_message.cpp, and
--     `execute_task_` of src/inference/worker.cpp; Chat.Answers joins a chat to its run and its stream.
--   * Tools: the program of tools/tokenize/tokenize.cpp; Tools.Start has the `main` of tools/cli/cli.cpp,
--     tools/debug/debug.cpp and tools/serve/main.cpp.
--   * Base has what they share: lists measured by native numbers, Boolean tests, results with faults,
--     and dictionaries as association lists, for the code's `std::map` and `std::unordered_map`.
--   * Examples has concrete inputs on which the theorems with conditions are applied.
--
-- State is passed explicitly; an operation that can fail returns a `Result`, whose faults are the
-- exceptions of the code and its undefined behaviour. Threads are sequences of events: each event is
-- one stretch of code under a lock.
--
-- Bounds: sizes are `int` in the code, and keep their wrap-around as 32-bit patterns; addresses
-- are 64-bit numbers. Lengths of texts and vocabularies, which the code counts in `int` too, are
-- taken to stay below 2 ^ 31. Fuel: the reader of values takes one unit for each level of nested
-- arrays, and each level takes twelve bytes, so the bytes ahead are enough; `merge_loop` takes one
-- unit for each token, since a round removes a token; `pretokenize_loop` and `special_loop` take
-- one unit for each byte of the text, since a round moves on by one byte at least, unless a
-- pattern or a special token matches the empty string, where the code repeats the round for ever;
-- `write_loop` takes one unit for each entry, since a round that finds a block with room stores
-- one entry at least; `hex_digits` takes one unit for each digit; `axis_loop` takes one unit for
-- each entry, and one more to end.
--
-- Parameters: what PCRE2 answers for a pattern, what the computation and the sampler answer for
-- the tokens of a round, what `ggml_type_name` answers, the calls of ggml that build a graph, with
-- those of the cache between them, what Boost parses and prints as JSON, what minja makes of a
-- template, what the system answers for a file, and what `std::format` prints for a number.
-- Strings are lists of bytes, floats are bit patterns in the model file; in the sampler they are
-- any type with the operations that the code uses.
--
-- A session's callback reads the id of its chat through a reference that may dangle, and a write of
-- the stream has the buffer of a string that is gone: what the callback reads is an argument of the
-- model, and what the socket sends from the buffer is left out. The sampler answers `wild` where it
-- would sort values with NaN among them. Assertions of the program itself are off, as in the Release
-- build of the README; those of ggml are on.
--
-- Not modelled: what the cache answers to the attention, the tensor computation by ggml, the templates of minja, the listener and the calls of
-- the sockets of the HTTP server, the printing of the metrics, and the callback of ggml that prints
-- the tensors of a graph.
pub mod Base
pub mod Gguf
pub mod Tokenizer
pub mod Worker
pub mod Events
pub mod Chat
pub mod Cli
pub mod Debug
pub mod Inference
pub mod Inputs
pub mod KvCache
pub mod Layers
pub mod Metrics
pub mod Models
pub mod Predict
pub mod Qwen
pub mod Sampling
pub mod Server
pub mod Streaming
pub mod Tools
pub mod Examples
