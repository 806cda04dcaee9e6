-- ===== src/Suitability/Recommending.antt =====
-- What core/suitability.py recommends, and when.
use fathomline.Prelude.{
  ℕ, Bool, true, false, Option, some, ◌≡◌, ◌≢◌, refl, sym, subst, inl, inr, ◌⊎◌,
}
use fathomline.Prelude.Json.{Text}
use fathomline.Suitability.{
  Rating, green, amber, red, HostFacts, ChatProvider, anthropic, ChatModel, local_small,
  local_large, Embedder, ollama_embed, voyage, SuitabilityResult, assess_local_small,
  assess_local_large, assess_embeddings, assess_known, assess, chat_choice, embed_choice, or_zero,
}

-- What is recommended fits the ratings, and what is allowed to leave the host.
pub record IsSensible (small large : Rating) (egress_allowed : Bool) (r : SuitabilityResult)
    : Type 0 where
  pub local_embeddings : egress_allowed ≡ false → r.recommended_embedder ≡ ollama_embed
  pub dimension :
      (r.recommended_embedding_dim ≡ 768) × (r.recommended_embedder ≡ ollama_embed)
      ⊎ (r.recommended_embedding_dim ≡ 1024) × (r.recommended_embedder ≡ voyage)
  pub large_fits : r.recommended_chat_model ≡ local_large → large ≡ green
  pub small_fits : r.recommended_chat_model ≡ local_small → small ≢ red
  pub no_egress :
      egress_allowed ≡ false
      → r.recommended_chat_provider ≡ anthropic
      → (small ≡ red) × (large ≢ green)

Fits : Rating → Rating → Bool → ChatProvider × ChatModel × Text → Type 0
Fits small large egress_allowed chat =
    (chat.1 ≡ local_large → large ≡ green)
    × (chat.1 ≡ local_small → small ≢ red)
    × (egress_allowed ≡ false → chat.0 ≡ anthropic → (small ≡ red) × (large ≢ green))

chat_choice-Fits :
    (small large : Rating) (egress_allowed : Bool)
    → Fits small large egress_allowed (chat_choice small large egress_allowed)
unfolding Fits
chat_choice-Fits small green e = (λ _. refl, λ h. cc, λ _ h. cc)
chat_choice-Fits green amber e = (λ h. cc, λ _ h. cc, λ _ h. cc)
chat_choice-Fits green red e = (λ h. cc, λ _ h. cc, λ _ h. cc)
chat_choice-Fits amber amber true = (λ h. cc, λ _ h. cc, λ h _. cc)
chat_choice-Fits amber amber false = (λ h. cc, λ _ h. cc, λ _ h. cc)
chat_choice-Fits amber red true = (λ h. cc, λ _ h. cc, λ h _. cc)
chat_choice-Fits amber red false = (λ h. cc, λ _ h. cc, λ _ h. cc)
chat_choice-Fits red amber true = (λ h. cc, λ h _. cc, λ h _. cc)
chat_choice-Fits red amber false = (λ h. cc, λ h _. cc, λ _ _. (refl, λ h. cc))
chat_choice-Fits red red true = (λ h. cc, λ h _. cc, λ h _. cc)
chat_choice-Fits red red false = (λ h. cc, λ h _. cc, λ _ _. (refl, λ h. cc))

Paired : Bool → Embedder × ℕ × Text → Type 0
Paired egress_allowed embed =
    (egress_allowed ≡ false → embed.0 ≡ ollama_embed)
    × ((embed.1 ≡ 768) × (embed.0 ≡ ollama_embed) ⊎ (embed.1 ≡ 1024) × (embed.0 ≡ voyage))

embed_choice-Paired :
    (embeddings : Rating) (egress_allowed : Bool)
    → Paired egress_allowed (embed_choice embeddings egress_allowed)
unfolding Paired
embed_choice-Paired green e = (λ _. refl, inl (refl, refl))
embed_choice-Paired amber true = (λ h. cc, inr (refl, refl))
embed_choice-Paired amber false = (λ _. refl, inl (refl, refl))
embed_choice-Paired red true = (λ h. cc, inr (refl, refl))
embed_choice-Paired red false = (λ _. refl, inl (refl, refl))

module _ (gb : ℕ → Text) where
  -- For a host whose RAM is known: without egress the embedder is the local one; the dimension is
  -- the embedder's; the large local model is recommended only where it is rated green and the
  -- small one never where it is rated red; and without egress the cloud is recommended for chat only
  -- where the small model is rated red and the large one is not rated green.
  pub assess-IsSensible :
      (facts : HostFacts) (ram : ℕ) (count : Option ℕ) (egress_allowed : Bool)
      → facts.ram_bytes ≡ some ram
      → IsSensible
          (assess_local_small ram (or_zero facts.gpu_vram_bytes)).rating
          (assess_local_large ram (or_zero facts.gpu_vram_bytes)).rating
          egress_allowed
          (assess gb facts count egress_allowed)
  unfolding assess assess_known Fits Paired
  assess-IsSensible facts ram count egress_allowed known =
      let vram = or_zero facts.gpu_vram_bytes in
      let chat =
        chat_choice-Fits (assess_local_small ram vram).rating (assess_local_large ram vram).rating
          egress_allowed in
      let embed = embed_choice-Paired (assess_embeddings gb ram count).rating egress_allowed in
      let is_known : assess gb facts count egress_allowed
          ≡ assess_known gb ram vram count egress_allowed =
        rw known refl in
      subst
        (IsSensible (assess_local_small ram vram).rating (assess_local_large ram vram).rating
          egress_allowed)
        (sym is_known)
        (record {
          local_embeddings = embed.0;
          dimension = embed.1;
          large_fits = chat.0;
          small_fits = chat.1;
          no_egress = chat.2;
        })
