-- ===== src/Suitability.antt =====
-- core/suitability.py: which of the AI options a host can run. Fractions of the RAM are compared by
-- multiplying out, as the floats of the source are exact for sizes below 2 ^ 53; the text of a size
-- in GB is a parameter.
pub mod Monotone
pub mod Recommending
mod Tests
use fathomline.Prelude.{
  ℕ, zero, suc, ◌+◌, ◌*◌, Bool, true, false, not, ◌&&◌, ◌||◌, Option, none, some, List, [], ◌∷◌,
  ◌++◌, if◌then◌else◌, leb,
}
use fathomline.Prelude.Json.{Text, codes}

pub data Rating : Type 0 where
  green amber red : Rating

abbrev pub gib : ℕ
gib = 1073741824

abbrev bytes_per_vector : ℕ
bytes_per_vector = 1024

pub record HostFacts : Type 0 where
  pub cpu_cores : Option ℕ
  pub ram_bytes : Option ℕ
  pub gpu_vram_bytes : Option ℕ

pub record OptionAssessment : Type 0 where
  pub key : Text
  pub label : Text
  pub rating : Rating
  pub reason : Text

pub data ChatProvider : Type 0 where
  ollama_chat anthropic : ChatProvider

pub data ChatModel : Type 0 where
  local_small local_large cloud_chat_model : ChatModel

pub data Embedder : Type 0 where
  ollama_embed voyage : Embedder

pub record SuitabilityResult : Type 0 where
  pub facts_known : Bool
  pub options : List OptionAssessment
  pub recommendation : Text
  pub recommended_chat_provider : ChatProvider
  pub recommended_chat_model : ChatModel
  pub recommended_embedder : Embedder
  pub recommended_embedding_dim : ℕ

abbrev option_of : Text → Text → Rating × Text → OptionAssessment
option_of key label (rating, reason) = record {
  key = key;
  label = label;
  rating = rating;
  reason = reason;
}

unfoldable pub assess_local_small : ℕ → ℕ → OptionAssessment
assess_local_small ram vram =
    option_of (codes "local_chat_small") (codes "Local chat — small model (3B)") (
      if leb (4 * gib) vram || leb (8 * gib) ram
      then (green, codes "fits a small (3B) local model comfortably")
      else if leb (4 * gib) ram
      then (amber, codes "runs a small model on CPU — usable but slow")
      else (red, codes "not enough RAM for a local model (needs ~4 GB free)"))

unfoldable pub assess_local_large : ℕ → ℕ → OptionAssessment
assess_local_large ram vram =
    option_of (codes "local_chat_large") (codes "Local chat — large model (8B+)") (
      if leb (16 * gib) vram
      then (green, codes "GPU VRAM fits an 8B+ model")
      else if leb (10 * gib) vram || leb (32 * gib) ram
      then (amber, codes "an 8B model will run but slowly (CPU or partial offload)")
      else (red, codes "not enough VRAM/RAM for a large local model"))

unfoldable pub assess_cloud_chat : OptionAssessment
assess_cloud_chat =
    option_of (codes "cloud_chat") (codes "Cloud chat (Anthropic/OpenAI)")
      (green, codes "runs on any hardware — requires egress + an API key; prompts leave the host")

abbrev pub is_green : Rating → Bool
is_green green = true
is_green _ = false

abbrev pub is_amber : Rating → Bool
is_amber amber = true
is_amber _ = false

abbrev pub chat_choice : Rating → Rating → Bool → ChatProvider × ChatModel × Text
chat_choice small large egress_allowed =
    if is_green large
    then (ollama_chat, local_large, codes "an 8B local model")
    else if is_green small
    then (ollama_chat, local_small, codes "a small (3B) local model")
    else if egress_allowed
    then (anthropic, cloud_chat_model, codes "the cloud (Claude Haiku)")
    else if is_amber small
    then (ollama_chat, local_small, codes "a small local model (slow)")
    else (anthropic, cloud_chat_model, codes "the cloud (enable egress)")

abbrev pub embed_choice : Rating → Bool → Embedder × ℕ × Text
embed_choice embeddings egress_allowed =
    if is_green embeddings
    then (ollama_embed, 768, codes "local embeddings")
    else if egress_allowed
    then (voyage, 1024, codes "Voyage embeddings (cloud)")
    else (ollama_embed, 768, codes "local embeddings (scoped)")

abbrev or_zero : Option ℕ → ℕ
or_zero none = 0
or_zero (some n) = n

abbrev unknown : Text
unknown = codes "hardware not reported yet — deploy/upgrade the agent to probe it"

unfoldable pub assess_unknown : Bool → SuitabilityResult
unfolding assess_cloud_chat
assess_unknown egress_allowed = record {
  facts_known = false;
  options =
      option_of (codes "local_chat_small") (codes "Local chat — small model (3B)") (amber, unknown)
      ∷ option_of (codes "local_chat_large") (codes "Local chat — large model (8B+)")
          (amber, unknown)
      ∷ assess_cloud_chat
      ∷ option_of (codes "semantic_embeddings") (codes "Semantic search (embeddings)")
          (amber, unknown)
      ∷ [];
  recommendation = codes "Deploy or upgrade the agent so it can report this host's hardware.";
  recommended_chat_provider = if egress_allowed then anthropic else ollama_chat;
  recommended_chat_model = if egress_allowed then cloud_chat_model else local_small;
  recommended_embedder = if egress_allowed then voyage else ollama_embed;
  recommended_embedding_dim = if egress_allowed then 1024 else 768;
}

module _ (gb : ℕ → Text) where
  abbrev about : ℕ → Text → ℕ → Text → Text
  about index_bytes middle ram end_text =
      codes "~" ++ (gb index_bytes ++ (middle ++ (gb ram ++ end_text)))

  abbrev embeddings_rating : ℕ → Option ℕ → Rating × Text
  embeddings_rating ram (some estate_entry_count) =
      let index_bytes = estate_entry_count * bytes_per_vector in
      if leb (4 * index_bytes) ram
      then (green, about index_bytes (codes " vector index fits well in ") ram (codes " RAM"))
      else if leb (2 * index_bytes) ram
      then (
        amber,
        about index_bytes (codes " index is large for ") ram (codes " RAM — scope what you embed"),
      )
      else (
        red,
        about index_bytes (codes " index won't fit ") ram (codes " RAM — embed only key volumes"),
      )
  embeddings_rating ram none =
      if leb (16 * gib) ram
      then (green, codes "ample RAM for a scoped semantic index")
      else if leb (8 * gib) ram
      then (amber, codes "embed only data volumes; the vector index grows with the number of files")
      else (red, codes "limited RAM — semantic search may not fit; use substring find")

  unfoldable pub assess_embeddings : ℕ → Option ℕ → OptionAssessment
  assess_embeddings ram estate_entry_count =
      option_of (codes "semantic_embeddings") (codes "Semantic search (embeddings)")
        (embeddings_rating ram estate_entry_count)

  unfoldable pub assess_known : ℕ → ℕ → Option ℕ → Bool → SuitabilityResult
  unfolding assess_local_small assess_local_large assess_cloud_chat assess_embeddings
  assess_known ram vram estate_entry_count egress_allowed =
      let small = assess_local_small ram vram in
      let large = assess_local_large ram vram in
      let embeddings = assess_embeddings ram estate_entry_count in
      let chat = chat_choice small.rating large.rating egress_allowed in
      let embed = embed_choice embeddings.rating egress_allowed in
      record {
        facts_known = true;
        options = small ∷ large ∷ assess_cloud_chat ∷ embeddings ∷ [];
        recommendation =
            codes "Use "
            ++ (chat.2 ++ (codes " for chat and " ++ (embed.2 ++ codes " for semantic search.")));
        recommended_chat_provider = chat.0;
        recommended_chat_model = chat.1;
        recommended_embedder = embed.0;
        recommended_embedding_dim = embed.1;
      }

  unfoldable pub assess : HostFacts → Option ℕ → Bool → SuitabilityResult
  unfolding assess_unknown assess_known
  assess facts estate_entry_count egress_allowed = elim facts.ram_bytes [
    | none ↦ assess_unknown egress_allowed
    | some ram ↦ assess_known ram (or_zero facts.gpu_vram_bytes) estate_entry_count egress_allowed
  ]
