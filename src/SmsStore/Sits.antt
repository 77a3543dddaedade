-- ===== src/SmsStore/Sits.antt =====
-- An entry in the queue of the store of messages, through the loops of its functions (l850gl-mm-bridge/src/ubus_glib.c).
use mathlib.Core.List.{append_assoc}
use luci_app_l850gl_mm.Base.Int.{ℤ}
use luci_app_l850gl_mm.SmsStore.Laws.{same_text_refl, update-length, last-length}
use luci_app_l850gl_mm.SmsStore.{Entry, prune, lookup, evict, update, take_out}
use luci_app_l850gl_mm.SmsDedupe.{sms_dedupe_is_expired, sms_dedupe_evictions_required}
use luci_app_l850gl_mm.Base.{
  ℕ, List, [], ◌∷◌, none, some, inl, inr, ◌≡◌, ◌≢◌, Bytes, same_text, length, ◌+◌, ◌++◌, ◌≤◌, false,
  ap, arith, ltb, same_text_iff, Bool-cases, ◌∙◌, refl,
}

-- The entry is in the queue, the first with its token, and at most `n` are behind it.
pub record Sits (e : Entry) (n : ℕ) (queue : List Entry) : Type 0 where
  pub before : List Entry
  pub after : List Entry
  pub split : queue ≡ before ++ (e ∷ after)
  pub missing : lookup e.client_token before ≡ none
  pub few : length after ≤ n

module _ (e : Entry) where
  other_token :
      (d : Entry)
      → d.client_token ≢ e.client_token
      → same_text d.client_token e.client_token ≡ false
  other_token d h = ground (arith, h, same_text_iff d.client_token e.client_token)

  push :
      {n : ℕ} (d : Entry) {queue : List Entry}
      → same_text d.client_token e.client_token ≡ false
      → Sits e n queue
      → Sits e n (d ∷ queue)
  unfolding lookup
  push d h sits = record {
    before = d ∷ sits.before;
    after = sits.after;
    split = ap (◌∷◌ d) sits.split;
    missing = rw h sits.missing;
    few = sits.few;
  }

  miss_head :
      (d : Entry) (queue : List Entry)
      → lookup e.client_token (d ∷ queue) ≡ none
      → (same_text d.client_token e.client_token ≡ false) × (lookup e.client_token queue ≡ none)
  unfolding lookup
  miss_head d queue h = (ground (arith, h), ground (arith, h))

  pub Sits-lookup :
      (before after : List Entry)
      → lookup e.client_token before ≡ none
      → lookup e.client_token (before ++ (e ∷ after)) ≡ some e
  unfolding lookup
  Sits-lookup [] after h = rw (same_text_refl e.client_token) refl
  Sits-lookup (d ∷ before) after h =
      let (other, rest) = miss_head d before h in rw other (Sits-lookup before after rest)

  prune-few : (now : ℤ) (queue : List Entry) → length (prune now queue) ≤ length queue
  unfolding prune
  prune-few now [] = omega arith
  prune-few now (d ∷ queue) = ground (arith, prune-few now queue)

  pub prune-Sits :
      (now : ℤ) (n : ℕ) (before after : List Entry)
      → lookup e.client_token before ≡ none
      → length after ≤ n
      → sms_dedupe_is_expired e.expires_at now ≡ false
      → Sits e n (prune now (before ++ (e ∷ after)))
  unfolding prune
  prune-Sits now n [] after h few live = rw live (record {
    before = [];
    after = prune now after;
    split = refl;
    missing = h;
    few = omega (arith, few, prune-few now after);
  })
  prune-Sits now n (d ∷ before) after h few live =
      let (other, rest) = miss_head d before h in
      let sits = prune-Sits now n before after rest few live in
      elim (Bool-cases (sms_dedupe_is_expired d.expires_at now)) [
        | inl x ↦ rw x sits
        | inr x ↦ rw x (push d other sits)
      ]

  pub evict-Sits :
      (n : ℕ) (before after : List Entry)
      → lookup e.client_token before ≡ none
      → length after ≤ n
      → n ≤ 62
      → Sits e n (evict (before ++ (e ∷ after)))
  unfolding evict sms_dedupe_evictions_required
  evict-Sits n [] after h few small =
      let stay : ltb 0 (sms_dedupe_evictions_required (length (e ∷ after))) ≡ false =
        ground (arith, few, small) in
      rw stay (record { before = []; after = after; split = refl; missing = h; few = few })
  evict-Sits n (d ∷ before) after h few small =
      let (other, rest) = miss_head d before h in
      elim (Bool-cases
        (ltb 0 (sms_dedupe_evictions_required (length (d ∷ (before ++ (e ∷ after))))))) [
          | inl x ↦ rw x (evict-Sits n before after rest few small)
          | inr x ↦
              rw x (record {
                before = d ∷ before;
                after = after;
                split = refl;
                missing = h;
                few = few;
              })
        ]

  pub append-Sits :
      (n : ℕ) (new : Entry) {queue : List Entry}
      → Sits e n queue
      → Sits e (n + 1) (queue ++ (new ∷ []))
  append-Sits n new sits = record {
    before = sits.before;
    after = sits.after ++ (new ∷ []);
    split =
        ap (λ q. q ++ (new ∷ [])) sits.split ∙ append_assoc sits.before (e ∷ sits.after) (new ∷ []);
    missing = sits.missing;
    few = omega (arith, sits.few, last-length sits.after new);
  }

  pub update-Sits :
      (n : ℕ) (new : Entry) (before after : List Entry)
      → lookup e.client_token before ≡ none
      → length after ≤ n
      → new.client_token ≢ e.client_token
      → Sits e n (update new (before ++ (e ∷ after)))
  unfolding update
  update-Sits n new [] after h few other =
      let miss : same_text e.client_token new.client_token ≡ false =
        ground (arith, other, same_text_iff e.client_token new.client_token) in
      rw miss (record {
        before = [];
        after = update new after;
        split = refl;
        missing = h;
        few = omega (arith, few, update-length new after);
      })
  update-Sits n new (d ∷ before) after h few other =
      let (miss, rest) = miss_head d before h in
      elim (Bool-cases (same_text d.client_token new.client_token)) [
        | inl x ↦ rw x (
            push new (other_token new other)
              (record { before = before; after = after; split = refl; missing = rest; few = few }))
        | inr x ↦ rw x (push d miss (update-Sits n new before after rest few other))
      ]

  take_out-few : (token : Bytes) (queue : List Entry) → length (take_out token queue) ≤ length queue
  unfolding take_out
  take_out-few token [] = omega arith
  take_out-few token (d ∷ queue) = ground (arith, take_out-few token queue)

  pub take_out-Sits :
      (n : ℕ) (token : Bytes) (before after : List Entry)
      → lookup e.client_token before ≡ none
      → length after ≤ n
      → token ≢ e.client_token
      → Sits e n (take_out token (before ++ (e ∷ after)))
  unfolding take_out
  take_out-Sits n token [] after h few other =
      let miss : same_text e.client_token token ≡ false =
        ground (arith, other, same_text_iff e.client_token token) in
      rw miss (record {
        before = [];
        after = take_out token after;
        split = refl;
        missing = h;
        few = omega (arith, few, take_out-few token after);
      })
  take_out-Sits n token (d ∷ before) after h few other =
      let (miss, rest) = miss_head d before h in
      elim (Bool-cases (same_text d.client_token token)) [
        | inl x ↦
            rw x
              (record { before = before; after = after; split = refl; missing = rest; few = few })
        | inr x ↦ rw x (push d miss (take_out-Sits n token before after rest few other))
      ]
