-- ===== src/Zdo/Neighbors/Requests/Whole.antt =====
-- The whole table of a device, however it is cut into responses.
use tophamm.Base.{
  Bool, ℕ, zero, suc, ◌+◌, ◌%◌, ◌<◌, ◌≤◌, ◌≡◌, refl, sym, ◌∙◌, ap, Bool-cases, inl, inr, true,
  false, leb, List, [], ◌++◌, append_assoc, length, length-append, take, drop, drop-append,
  take-drop, take_whole, take_positive, some, IsU8, arith,
}
use tophamm.Outcome.{Build, ok}
use tophamm.Deconz.Types.{Destination}
use tophamm.Deconz.Wire.External.{Byteorder}
use tophamm.Zdo.Protocol.{Neighbor}
use tophamm.Zdo.Transactions.{Channel}
use tophamm.Zdo.Neighbors.Requests.{
  request_rounds, request_neighbors, HasTable, stops_round, goes_on_round,
}
use tophamm.Zdo.Neighbors.Termination.{IsFruitful, round_stops, round_goes_on}

module _ ⦃bo : Byteorder⦄ (build : Build) (channel : Channel) (destination : Destination) where
  covered :
      (n : ℕ) (so_far rest : List Neighbor)
      → length (so_far ++ rest) ≤ length (so_far ++ take n rest)
      → so_far ++ take n rest ≡ so_far ++ rest
  covered n so_far rest h =
      ap (λ t. so_far ++ t)
        (take_whole n rest
          (omega (arith, length-append so_far rest, length-append so_far (take n rest))))

  module _ (table : List Neighbor) (device : HasTable channel destination table) where
    open device use {size, response}

    -- What the response to the request behind these neighbours brings.
    brought :
        (so_far rest : List Neighbor)
        → table ≡ so_far ++ rest
        → (response (length so_far)).neighbor_table_list ≡ take (size (length so_far)) rest
    brought so_far rest e =
        device.list (length so_far)
        ∙ ap (λ (t : List Neighbor). take (size (length so_far)) (drop (length so_far) t)) e
        ∙ ap (take (size (length so_far))) (drop-append so_far rest)

    below :
        (so_far rest : List Neighbor)
        → table ≡ so_far ++ rest
        → length table < 256
        → IsU8 (length so_far)
    below so_far rest e fits = omega (arith, ap length e, length-append so_far rest)

    -- The call returns the whole table from here.
    abbrev Completes : ℕ → List Neighbor → ℕ → Type 0
    Completes fuel so_far id =
        (id' : ℕ) × (request_rounds build channel destination fuel (length so_far) so_far id
          ≡ some (ok table, id'))
        × IsU8 id'

    -- Whether the response to the request behind these neighbours completes the table.
    abbrev is_last : List Neighbor → Bool
    is_last so_far =
        leb (response (length so_far)).neighbor_table_entries
          (length (so_far ++ (response (length so_far)).neighbor_table_list))

    last_round :
        (fuel : ℕ) (so_far rest : List Neighbor) (id : ℕ)
        → table ≡ so_far ++ rest
        → length table < 256
        → IsU8 id
        → is_last so_far ≡ true
        → Completes (suc fuel) so_far id
    last_round fuel so_far rest id e fits h stops = (
      (id + 1) % 256,
      stops_round build channel destination fuel (length so_far) id _ so_far _ _
            (device.answers (length so_far) id (below so_far rest e fits) h)
            (round_stops build so_far (response (length so_far)) stops)
          ∙ ap (λ ns. some (ok ns, (id + 1) % 256)) whole,
      omega arith,
    )
      where
        whole : so_far ++ (response (length so_far)).neighbor_table_list ≡ table
        whole =
            ap (◌++◌ so_far) (brought so_far rest e)
            ∙ covered (size (length so_far)) so_far rest (
                ground (
                  arith,
                  stops,
                  device.entries (length so_far),
                  ap length e,
                  ap (λ ns. length (so_far ++ ns)) (brought so_far rest e),
                ))
            ∙ sym e

    -- Neighbours are left, so that the response brings some.
    left_over :
        (so_far rest : List Neighbor)
        → table ≡ so_far ++ rest
        → is_last so_far ≡ false
        → length (so_far ++ take (size (length so_far)) rest) < length table
    left_over so_far rest e goes_on = ground (
      arith,
      device.entries (length so_far),
      ap (λ ns. length (so_far ++ ns)) (brought so_far rest e),
    )

    fruitful :
        (so_far rest : List Neighbor)
        → table ≡ so_far ++ rest
        → length table < 256
        → is_last so_far ≡ false
        → IsFruitful (response (length so_far))
    fruitful so_far rest e fits goes_on = record {
      entries = omega (arith, device.entries (length so_far));
      some_neighbor = omega (
        arith,
        ap length (brought so_far rest e),
        take_positive (size (length so_far)) rest (device.size_positive (length so_far)) (
            omega (
              arith,
              ap length e,
              length-append so_far rest,
              length-append so_far (take (size (length so_far)) rest),
              left_over so_far rest e goes_on,
            )),
      );
    }

    another_round :
        (fuel : ℕ) (so_far rest : List Neighbor) (id : ℕ)
        → table ≡ so_far ++ rest
        → length table < 256
        → IsU8 id
        → is_last so_far ≡ false
        → request_rounds build channel destination (suc fuel) (length so_far) so_far id
          ≡ request_rounds build channel destination fuel
              (length (so_far ++ take (size (length so_far)) rest))
              (so_far ++ take (size (length so_far)) rest)
              ((id + 1) % 256)
    another_round fuel so_far rest id e fits h goes_on =
        goes_on_round build channel destination fuel (length so_far) _ id _ so_far _ _
          (device.answers (length so_far) id (below so_far rest e fits) h)
          (round_goes_on build so_far (response (length so_far))
            (fruitful so_far rest e fits goes_on) goes_on)
        ∙ rw (brought so_far rest e) refl

    -- What is left behind the response is less, but not nothing.
    shorter :
        (so_far rest : List Neighbor)
        → table ≡ so_far ++ rest
        → length table < 256
        → is_last so_far ≡ false
        → (0 < length (drop (size (length so_far)) rest))
          × (length (drop (size (length so_far)) rest) < length rest)
    shorter so_far rest e fits goes_on = (
      omega (
        arith,
        ap length e,
        length-append so_far rest,
        length-append so_far (take (size (length so_far)) rest),
        left_over so_far rest e goes_on,
        ap length (take-drop (size (length so_far)) rest),
        length-append (take (size (length so_far)) rest) (drop (size (length so_far)) rest),
      ),
      omega (
        arith,
        (fruitful so_far rest e fits goes_on).some_neighbor,
        ap length (brought so_far rest e),
        ap length (take-drop (size (length so_far)) rest),
        length-append (take (size (length so_far)) rest) (drop (size (length so_far)) rest),
      ),
    )

    completes :
        (fuel : ℕ) (so_far rest : List Neighbor) (id : ℕ)
        → table ≡ so_far ++ rest
        → length table < 256
        → length rest ≤ fuel
        → 0 < fuel
        → IsU8 id
        → Completes fuel so_far id
    completes zero so_far rest id e fits enough positive h = absurd (omega arith)
    completes (suc fuel) so_far rest id e fits enough positive h =
        elim (Bool-cases (is_last so_far)) [
          | inl stops ↦ last_round fuel so_far rest id e fits h stops
          | inr goes_on ↦
              (let got = take (size (length so_far)) rest in
                let after = drop (size (length so_far)) rest in
                let split =
                  ap (◌++◌ so_far) (sym (take-drop (size (length so_far)) rest))
                  ∙ sym (append_assoc so_far got after) in
                let (id', c, byte) =
                  completes fuel (so_far ++ got) after ((id + 1) % 256) (e ∙ split) fits
                    (omega (arith, (shorter so_far rest e fits goes_on).1))
                    (omega (
                      arith,
                      enough,
                      (shorter so_far rest e fits goes_on).0,
                      (shorter so_far rest e fits goes_on).1,
                    ))
                    (omega arith) in
                (id', another_round fuel so_far rest id e fits h goes_on ∙ c, byte))
        ]

  -- A device with a table of at most 255 neighbours that hands out some of it, from the index asked
  -- for, with every response: given one more round than the table has neighbours, the loop has
  -- returned, in both build profiles, with exactly the table, and the next transaction
  -- id is a byte.
  pub request_neighbors-HasTable :
      (table : List Neighbor) (id : ℕ)
      → HasTable channel destination table
      → length table < 256
      → IsU8 id
      → (id' : ℕ) × (request_neighbors build channel destination (suc (length table)) id
          ≡ some (ok table, id'))
        × IsU8 id'
  unfolding request_neighbors
  request_neighbors-HasTable table id device fits h =
      completes table device (suc (length table)) [] table id refl fits (omega arith) (omega arith)
        h
