-- ===== src/Traffic/Counted.antt =====
-- What the traffic counters are.
use web_zapret.Base.{
  ◌≡◌, ◌⊎◌, inl, inr, refl, sym, ◌∙◌, true, false, ◌&&◌, List, [], ◌∷◌, Option, none, some, Result,
  ok, err, value_error, ◌>>=◌, ℤ, pos, ◌+ℤ◌, +ℤ_assoc, zero-+ℤ, +ℤ-zero, if_each,
}
use web_zapret.Text.{Text, codes, words}
use web_zapret.Logs.{splitlines}
use web_zapret.Traffic.{
  Source, Traffic, is_zero, or_zero, counted, count_lines, count_of, int_or_raise, stats, stored,
  get_traffic_stats,
}

module _ (s : Source) where
  pub sum_of_lines : Text → List Text → ℤ
  sum_of_lines target [] = pos 0
  sum_of_lines target (line ∷ lines) = counted s target (words line) +ℤ sum_of_lines target lines

  -- The bytes of the lines of a listing whose third word is the target and whose second one is a number.
  abbrev pub sum_of : Text → Option Text → ℤ
  sum_of target none = pos 0
  sum_of target (some listing) = sum_of_lines target (splitlines listing)

  count_lines-sum :
      (target : Text) (n : ℤ) (lines : List Text)
      → count_lines s target n lines ≡ n +ℤ sum_of_lines target lines
  unfolding count_lines sum_of_lines
  count_lines-sum target n [] = sym (+ℤ-zero n)
  count_lines-sum target n (line ∷ lines) =
      count_lines-sum target (n +ℤ counted s target (words line)) lines
      ∙ +ℤ_assoc n (counted s target (words line)) (sum_of_lines target lines)

  count_of-sum : (target : Text) (o : Option Text) → count_of s target o ≡ sum_of target o
  unfolding count_of
  count_of-sum target none = refl
  count_of-sum target (some listing) =
      count_lines-sum target (pos 0) (splitlines listing)
      ∙ zero-+ℤ (sum_of_lines target (splitlines listing))

  abbrev pub out_sum : ℤ
  out_sum = sum_of (codes "NFQUEUE") s.listed_out

  abbrev pub in_sum : ℤ
  in_sum = sum_of (codes "RETURN") s.listed_in

  -- The counters, from the listings or from the state files, or an exception.
  pub data IsRead : Result Traffic → Type 0 where
    from_rules :
        (r : Result Traffic)
        → (is_zero in_sum && is_zero out_sum) ≡ false
        → r ≡ ok (stats s in_sum out_sum)
        → IsRead r
    from_files :
        (r : Result Traffic) (i o : ℤ)
        → (is_zero in_sum && is_zero out_sum) ≡ true
        → s.to_int (or_zero s.stored_in) ≡ some i
        → s.to_int (or_zero s.stored_out) ≡ some o
        → r ≡ ok (stats s i o)
        → IsRead r
    unread :
        (r : Result Traffic) (m : Text)
        → (is_zero in_sum && is_zero out_sum) ≡ true
        → (s.to_int (or_zero s.stored_in) ≡ none) ⊎ (s.to_int (or_zero s.stored_out) ≡ none)
        → r ≡ err (value_error m)
        → IsRead r

  -- The state files, by what `int` makes of their texts.
  read_stored : Option ℤ → Option ℤ → Result Traffic
  unfolding int_or_raise stats
  read_stored a b = do i ← int_or_raise s a; o ← int_or_raise s b; ok (stats s i o)

  read_stored-IsRead :
      (is_zero in_sum && is_zero out_sum) ≡ true
      → (a b : Option ℤ) → s.to_int (or_zero s.stored_in) ≡ a
      → s.to_int (or_zero s.stored_out) ≡ b
      → IsRead (read_stored a b)
  unfolding read_stored int_or_raise
  read_stored-IsRead idle none b p q = unread _ _ idle (inl p) refl
  read_stored-IsRead idle (some i) none p q = unread _ _ idle (inr q) refl
  read_stored-IsRead idle (some i) (some o) p q = from_files _ i o idle p q refl

  stored-IsRead : (is_zero in_sum && is_zero out_sum) ≡ true → IsRead (stored s)
  unfolding stored read_stored
  stored-IsRead idle =
      read_stored-IsRead idle (s.to_int (or_zero s.stored_in)) (s.to_int (or_zero s.stored_out))
        refl refl

  -- The traffic counters, whatever iptables lists: the sums of the bytes that the lines of the two rules
  -- count, with their total, if one of the two sums is not 0; otherwise the numbers in the state files, a
  -- file that is missing or empty counting as 0; and if then a file holds no number, a `ValueError`.
  pub get_traffic_stats-IsRead : IsRead (get_traffic_stats s)
  unfolding get_traffic_stats
  get_traffic_stats-IsRead =
      rw (count_of-sum (codes "NFQUEUE") s.listed_out, count_of-sum (codes "RETURN") s.listed_in)
        (if_each IsRead (is_zero in_sum && is_zero out_sum) (λ idle. stored-IsRead idle)
          (λ busy. from_rules _ busy refl))
