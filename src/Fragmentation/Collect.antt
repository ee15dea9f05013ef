-- ===== src/Fragmentation/Collect.antt =====
-- The fragments of one collection, as the collector takes them one after the other.
use bitchat_node_daemon.Base.{
  ℕ, ◌+◌, ◌-◌, ◌<◌, ◌≡◌, refl, sym, ap, ◌∙◌, true, false, Option, none, some, List, [], ◌∷◌, ◌++◌,
  append_assoc, arith, ◌==◌, if◌then◌else◌, length, replicate, length-append,
}
use bitchat_node_daemon.Base.Bytes.{Bytes, Text, eq_text, eq_text_refl}
use bitchat_node_daemon.Base.Hex.{hex}
use bitchat_node_daemon.Base.Dict.{lookup, insert, lookup-insert, lookup-remove}
use bitchat_node_daemon.Protocol.Trackers.{
  FragmentMap, FragmentCollector, get_fragment, join_fragments, open_collection, close_collection,
  store_map, settle, store_fragment, add_fragment, map_at, sender_at,
}
use bitchat_node_daemon.Fragmentation.Lookup.{Distinct, put_fragment-new, Distinct-append}

module _ (id : Bytes) (total original_type : ℕ) (sender : Text) where
  abbrev pub key : Text
  key = hex id

  -- Only numbers and data of the fragments are left open.
  unfoldable pub feed :
      FragmentMap → FragmentCollector → List (Option (Bytes × Text)) × FragmentCollector
  feed [] c = ([], c)
  feed ((i, d) ∷ m) c =
      let (r, c') = add_fragment id i total original_type d sender c in
      let (rs, c'') = feed m c' in (r ∷ rs, c'')

  -- The collection holds `done`, and its first fragment named the sender.
  record IsOpen (c : FragmentCollector) (done : FragmentMap) : Type 0 where
    found : lookup key c.fragments ≡ some done
    named : lookup key c.metadata ≡ some (total, original_type, sender)

  store_map-IsOpen :
      (c : FragmentCollector) (m n : FragmentMap) → IsOpen c m → IsOpen (store_map key n c) n
  store_map-IsOpen c m n h = record {
    found = rw (lookup-insert key key n c.fragments, eq_text_refl key);
    named = h.named;
  }

  open_collection-open :
      (c : FragmentCollector) (m : FragmentMap)
      → IsOpen c m
      → open_collection key total original_type sender c ≡ c
  unfolding open_collection
  open_collection-open c m h = rw h.found

  open_collection-IsOpen :
      (c : FragmentCollector)
      → lookup key c.fragments ≡ none
      → IsOpen (open_collection key total original_type sender c) []
  unfolding open_collection
  open_collection-IsOpen c h = rw h (record {
    found = rw (lookup-insert key key [] c.fragments, eq_text_refl key);
    named = rw (lookup-insert key key (total, original_type, sender) c.metadata, eq_text_refl key);
  })

  map_at-IsOpen : (c : FragmentCollector) (m : FragmentMap) → IsOpen c m → map_at key c ≡ m
  unfolding map_at
  map_at-IsOpen c m h = rw (h.found, map_at)

  sender_at-IsOpen :
      (c : FragmentCollector) (m : FragmentMap) → IsOpen c m → sender_at key c ≡ sender
  unfolding sender_at
  sender_at-IsOpen c m h = rw (h.named, sender_at)

  -- A new fragment in an open collection leads to `settle` with one fragment more.
  add_open :
      (c : FragmentCollector) (m : FragmentMap) (i : ℕ) (d : Bytes)
      → IsOpen c m
      → get_fragment i m ≡ none
      → add_fragment id i total original_type d sender c
        ≡ settle key total (m ++ (i, d) ∷ []) (store_map key (m ++ (i, d) ∷ []) c)
  unfolding add_fragment store_fragment
  add_open c m i d h new =
      rw (open_collection-open c m h, map_at-IsOpen c m h, put_fragment-new i d m new)

  add_more :
      (c : FragmentCollector) (m : FragmentMap) (i : ℕ) (d : Bytes)
      → IsOpen c m
      → get_fragment i m ≡ none
      → length m + 1 < total
      → add_fragment id i total original_type d sender c
        ≡ (none, store_map key (m ++ (i, d) ∷ []) c)
  unfolding settle
  add_more c m i d h new short =
      let wrong : (length (m ++ (i, d) ∷ []) == total) ≡ false =
        ground (arith, length-append m ((i, d) ∷ [])) in
      add_open c m i d h new ∙ rw (wrong, settle)

  add_last :
      (c : FragmentCollector) (m : FragmentMap) (i : ℕ) (d whole : Bytes)
      → IsOpen c m
      → get_fragment i m ≡ none
      → length m + 1 ≡ total
      → join_fragments total 0 (m ++ (i, d) ∷ []) ≡ some whole
      → add_fragment id i total original_type d sender c
        ≡ (some (whole, sender), close_collection key (store_map key (m ++ (i, d) ∷ []) c))
  unfolding settle
  add_last c m i d whole h new full joined =
      let right : (length (m ++ (i, d) ∷ []) == total) ≡ true =
        ground (arith, length-append m ((i, d) ∷ [])) in
      add_open c m i d h new
      ∙ rw (right, joined, sender_at-IsOpen _ _ (store_map-IsOpen c m (m ++ (i, d) ∷ []) h), settle)

  add_first :
      (c : FragmentCollector) (i : ℕ) (d : Bytes)
      → lookup key c.fragments ≡ none
      → add_fragment id i total original_type d sender c
        ≡ add_fragment id i total original_type d sender
            (open_collection key total original_type sender c)
  unfolding add_fragment
  add_first c i d h =
      ap (λ s. store_fragment key i total d s)
        (sym (
          open_collection-open (open_collection key total original_type sender c) []
            (open_collection-IsOpen c h)))

  -- What the last answer leaves: the collection is gone, and the others are as they were.
  pub record IsClosed (c c' : FragmentCollector) : Type 0 where
    pub found :
        (k : Text) → lookup k c'.fragments ≡ (if eq_text key k then none else lookup k c.fragments)
    pub named :
        (k : Text) → lookup k c'.metadata ≡ (if eq_text key k then none else lookup k c.metadata)

  close-IsClosed :
      (c : FragmentCollector) (m : FragmentMap)
      → IsClosed c (close_collection key (store_map key m c))
  unfolding close_collection
  close-IsClosed c m = record {
    found = λ k.
        ground (
          arith,
          lookup-remove key k (insert key m c.fragments),
          lookup-insert key k m c.fragments,
        );
    named = λ k. lookup-remove key k c.metadata;
  }

  IsClosed-store_map :
      (c c' : FragmentCollector) (m : FragmentMap) → IsClosed (store_map key m c) c' → IsClosed c c'
  IsClosed-store_map c c' m h = record {
    found = λ k. ground (arith, h.found k, lookup-insert key k m c.fragments);
    named = h.named;
  }

  abbrev pub answers : ℕ → Bytes → List (Option (Bytes × Text))
  answers n whole = replicate n none ++ some (whole, sender) ∷ []

  feed_open :
      (rest done : FragmentMap) (p : ℕ × Bytes) (c : FragmentCollector) (whole : Bytes)
      → IsOpen c done
      → Distinct (done ++ p ∷ rest)
      → length done + 1 + length rest ≡ total
      → join_fragments total 0 (done ++ p ∷ rest) ≡ some whole
      → ((feed (p ∷ rest) c).0 ≡ answers (length rest) whole) × IsClosed c (feed (p ∷ rest) c).1
  unfolding feed
  feed_open [] done (i, d) c whole h distinct full joined =
      rw (add_last c done i d whole h (Distinct-append i d done [] distinct) (omega arith) joined)
        (refl, close-IsClosed c (done ++ (i, d) ∷ []))
  feed_open (q ∷ rest) done (i, d) c whole h distinct full joined =
      let here : List (ℕ × Bytes) = done ++ (i, d) ∷ [] in
      let regroup : here ++ q ∷ rest ≡ done ++ (i, d) ∷ q ∷ rest =
        append_assoc done ((i, d) ∷ []) (q ∷ rest) in
      let new = Distinct-append i d done (q ∷ rest) distinct in
      let (rs, closed) =
        feed_open rest here q (store_map key here c) whole (store_map-IsOpen c done here h)
          (rw regroup distinct) (omega (arith, length-append done ((i, d) ∷ [])))
          (rw regroup joined) in
      rw (add_more c done i d h new (omega arith))
        (ap (λ l. none ∷ l) rs, IsClosed-store_map c _ here closed)

  abbrev opened : FragmentCollector → FragmentCollector
  opened = open_collection key total original_type sender

  feed_first :
      (m : FragmentMap) (p : ℕ × Bytes) (c : FragmentCollector)
      → lookup key c.fragments ≡ none
      → feed (p ∷ m) c ≡ feed (p ∷ m) (opened c)
  unfolding feed
  feed_first m (i, d) c absent = rw (add_first c i d absent)

  IsClosed-opened :
      (c c' : FragmentCollector)
      → lookup key c.fragments ≡ none
      → IsClosed (opened c) c'
      → IsClosed c c'
  unfolding open_collection
  IsClosed-opened c c' absent h = record {
    found = λ k. ground (arith, h.found k, absent, lookup-insert key k [] c.fragments);
    named = λ k.
        ground
          (arith, h.named k, absent, lookup-insert key k (total, original_type, sender) c.metadata);
  }

  -- From a collection that is not there yet.
  pub feed_all :
      (m : FragmentMap) (c : FragmentCollector) (whole : Bytes)
      → lookup key c.fragments ≡ none
      → Distinct m
      → length m ≡ total
      → 0 < total
      → join_fragments total 0 m ≡ some whole
      → ((feed m c).0 ≡ answers (total - 1) whole) × IsClosed c (feed m c).1
  feed_all [] c whole absent distinct full pos joined = absurd (omega arith)
  feed_all (p ∷ m) c whole absent distinct full pos joined =
      let (rs, closed) =
        feed_open m [] p (opened c) whole (open_collection-IsOpen c absent) distinct (omega arith)
          joined in
      let n : total - 1 ≡ length m = omega arith in
      rw (feed_first m p c absent, n) (rs, IsClosed-opened c _ absent closed)
