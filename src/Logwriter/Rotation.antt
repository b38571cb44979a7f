-- ===== src/Logwriter/Rotation.antt =====
-- What `rotate` does to each file of the ladder.
use winter_service_tmux.Prelude.{
  ℕ, zero, suc, ◌-◌, ◌<◌, ◌≡◌, none, leb, arith, nat_eq, ◌==◌, if◌then◌else◌,
}
use winter_service_tmux.Logwriter.{Ladder, rename, shift, unlink, rotate}

-- `rename` in terms of the files: the source is gone, the target has its text.
rename_at :
    (fs : Ladder) (src dst k : ℕ)
    → src < dst
    → fs dst ≡ none
    → rename fs src dst k ≡ (if k == src then none else if k == dst then fs src else fs k)
unfolding rename
rename_at fs src dst k lt free = ground (arith, free)

shift_at :
    (n : ℕ) (fs : Ladder) (k : ℕ)
    → fs (suc n) ≡ none
    → shift fs n k ≡ (
        if k == 0
        then fs 0
        else if k == 1
        then none
        else if leb k (suc n)
        then fs (k - 1)
        else fs k)
unfolding shift
shift_at zero fs k free = ground arith
shift_at (suc n) fs k free =
    let fs' : Ladder = rename fs (suc n) (suc (suc n)) in
    let at = λ (j : ℕ). rename_at fs (suc n) (suc (suc n)) j (omega arith) free in
    ground (arith, shift_at n fs' k (ground (arith, at (suc n))), at 0, at (k - 1), at k)

-- `rotate` with room for at least one backup
pub rotate_at :
    (fs : Ladder) (n k : ℕ)
    → rotate fs (suc n) k ≡ (if k == 0 then none else if leb k (suc n) then fs (k - 1) else fs k)
unfolding rotate
rotate_at fs n k =
    let cut : Ladder = unlink fs (suc n) in
    let at = λ (j : ℕ). shift_at n cut j (unfold unlink in ground arith) in
    let down : Ladder = shift cut n in
    ground (arith, rename_at down 0 1 k (omega arith) (ground (arith, at 1)), at 0, at k)
