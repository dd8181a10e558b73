-- ===== src/Examples/Loads.antt =====
-- `Model::load` of the small file.
use zinfer_lm.Base.{wild, none, ℕ, ◌≡◌, refl, false, some, List, [], leb, err}
use zinfer_lm.Models.{ModelImpl, Platform, unload, instance_of}

-- A build without CUDA; ggml takes one to four dimensions.
abbrev platform : Platform
platform = record {
  admits = λ type n dims. leb n 4;
  label = λ name. name;
  nbytes = λ type dims. 0;
  overhead = 368;
  cuda = false;
  allocates = false;
}

abbrev no_type_name : ℕ → List ℕ
no_type_name type = []

-- A model that was unloaded is not there.
unload_then_instance : (m : ModelImpl) → instance_of (unload (some m)).1 ≡ (err wild, none)
unfolding unload instance_of
unload_then_instance m = refl
