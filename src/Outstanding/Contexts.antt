-- ===== src/Outstanding/Contexts.antt =====
-- What storing and dropping a reply context does to all the maps of contexts.
use msgbox.Prelude.{
  ℕ, ◌%◌, ◌<◌, ◌≡◌, ap, sym, subst, ◌∙◌, Bool, Bool-cases, true, false, Option, none, some, inl,
  inr, ◌==◌, ◌&&◌, if◌then◌else◌, upd, upd_self, upd_ne, arith,
}
use msgbox.Cstructs.{Cstructs}
use msgbox.Libc.{Libc}
use msgbox.State.{ConnStatus}
use msgbox.Status.{reply_key}
use msgbox.Timeouts.{unset_context}
use msgbox.Api.{take_reply_id}

abbrev same : ℕ → ℕ → ℕ → ℕ → Bool
same st' reply_id' st reply_id = (st' == st) && (reply_id' == reply_id)

narrow-eq : (a b : ℕ) → a < 65536 → b < 65536 → (a % 65536 == b % 65536) ≡ (a == b)
narrow-eq a b h k = ground arith

narrow-Agree :
    (a b : ℕ)
    → a < 65536
    → b < 65536
    → (a % 65536 == b % 65536) ≡ true
    → a % 4294967296 ≡ b % 4294967296
narrow-Agree a b h k e = ground arith

-- The statuses that are not written.
elsewhere :
    (mem : ℕ → ConnStatus) (st' st reply_id' reply_id : ℕ) (x : ConnStatus) (o : Option ℕ)
    → (st' == st) ≡ false
    → (upd mem st' x st).reply_contexts reply_id
      ≡ (if same st' reply_id' st reply_id then o else (mem st).reply_contexts reply_id)
elsewhere mem st' st reply_id' reply_id x o ne =
    rw ne (ap (λ (y : ConnStatus). y.reply_contexts reply_id) (upd_ne mem st' x st (ground arith)))

module _ ⦃cs : Cstructs⦄ where
  unset_here :
      (mem : ℕ → ConnStatus) (st reply_id' reply_id : ℕ)
      → reply_id' < 65536
      → reply_id < 65536
      → (upd mem st (unset_context reply_id' (mem st)) st).reply_contexts reply_id
        ≡ (if reply_id' == reply_id then none else (mem st).reply_contexts reply_id)
  unset_here mem st reply_id' reply_id w' w =
      ap (λ (y : ConnStatus). y.reply_contexts reply_id) (upd_self mem st _)
      ∙ cs.map_unset_lem reply_key (mem st).reply_contexts reply_id' reply_id
          (narrow-Agree reply_id' reply_id w' w)
      ∙ ap (λ (b : Bool). if b then none else (mem st).reply_contexts reply_id)
          (narrow-eq reply_id' reply_id w' w)

  pub contexts_unset :
      (mem : ℕ → ConnStatus) (st' reply_id' st reply_id : ℕ)
      → reply_id' < 65536
      → reply_id < 65536
      → (upd mem st' (unset_context reply_id' (mem st')) st).reply_contexts reply_id ≡ (
          if (st' == st) && (reply_id' == reply_id) then none else (mem st).reply_contexts reply_id)
  contexts_unset mem st' reply_id' st reply_id w' w = elim (Bool-cases (st' == st)) [
    | inr ne ↦ elsewhere mem st' st reply_id' reply_id _ none ne
    | inl e ↦ rw e (
        subst
          (λ (q : ℕ).
            (upd mem q (unset_context reply_id' (mem q)) st).reply_contexts reply_id
            ≡ (if reply_id' == reply_id then none else (mem st).reply_contexts reply_id))
          (the_same st st' e) (unset_here mem st reply_id' reply_id w' w))
  ]
    where
      the_same : (a b : ℕ) → (b == a) ≡ true → a ≡ b
      the_same a b e = ground arith

module _ ⦃cs : Cstructs⦄ ⦃os : Libc⦄ where
  set_here :
      (mem : ℕ → ConnStatus) (st context reply_id : ℕ)
      → (mem st).next_reply_id < 65536
      → reply_id < 65536
      → (upd mem st (take_reply_id context (mem st)) st).reply_contexts reply_id ≡ (
          if (mem st).next_reply_id == reply_id
          then some context
          else (mem st).reply_contexts reply_id)
  set_here mem st context reply_id w' w =
      let own = (mem st).next_reply_id in
      ap (λ (y : ConnStatus). y.reply_contexts reply_id) (upd_self mem st _)
      ∙ cs.map_set_lem reply_key (mem st).reply_contexts own context reply_id
          (narrow-Agree own reply_id w' w)
      ∙ ap (λ (b : Bool). if b then some context else (mem st).reply_contexts reply_id)
          (narrow-eq own reply_id w' w)

  pub contexts_set :
      (mem : ℕ → ConnStatus) (st' context st reply_id : ℕ)
      → (mem st').next_reply_id < 65536
      → reply_id < 65536
      → (upd mem st' (take_reply_id context (mem st')) st).reply_contexts reply_id ≡ (
          if (st' == st) && ((mem st').next_reply_id == reply_id)
          then some context
          else (mem st).reply_contexts reply_id)
  contexts_set mem st' context st reply_id w' w = elim (Bool-cases (st' == st)) [
    | inr ne ↦ elsewhere mem st' st (mem st').next_reply_id reply_id _ (some context) ne
    | inl e ↦
        (let own : st ≡ st' = ground arith in
          rw e (
            subst
              (λ (q : ℕ). (upd mem q (take_reply_id context (mem q)) st).reply_contexts reply_id ≡ (
                if (mem q).next_reply_id == reply_id
                then some context
                else (mem st).reply_contexts reply_id))
              own
              (set_here mem st context reply_id
                (subst (λ q. (mem q).next_reply_id < 65536) (sym own) w') w)))
  ]
