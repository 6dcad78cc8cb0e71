-- ===== src/Secrets/Leases.antt =====
-- The life of a lease in src/forge_controller/secret_broker.py.
use hermes_dev_team_vm.Prelude.{ℕ, ◌≡◌, refl, Bool, true, false, List, [], ◌∷◌, map, All, err}
use hermes_dev_team_vm.Secrets.{SecretLease, lease_closed, bytes_copy, close}

-- Nothing of the secret is in the buffer.
abbrev pub IsZero : List ℕ → Type 0
IsZero = All (λ byte. byte ≡ 0)

-- A closed lease is overwritten.
abbrev pub IsScrubbed : SecretLease → Type 0
IsScrubbed lease = lease.closed ≡ true → IsZero lease.buffer

zeros-IsZero : (buffer : List ℕ) → IsZero (map (λ _. 0) buffer)
zeros-IsZero [] = tt
zeros-IsZero (b ∷ buffer) = (refl, zeros-IsZero buffer)

-- A closed lease gives no bytes and holds none of the secret, and closing it again changes
-- nothing, if the lease was open or overwritten before.
pub close-IsScrubbed :
    (lease : SecretLease)
    → IsScrubbed lease
    → (bytes_copy (close lease) ≡ err lease_closed)
      × IsZero (close lease).buffer
      × (close (close lease) ≡ close lease)
unfolding close bytes_copy
close-IsScrubbed lease scrubbed = by_state lease.closed lease.buffer scrubbed
  where
    by_state :
        (closed : Bool) (buffer : List ℕ)
        → (closed ≡ true → IsZero buffer)
        → (bytes_copy (close (record { buffer = buffer; closed = closed })) ≡ err lease_closed)
          × IsZero (close (record { buffer = buffer; closed = closed })).buffer
          × (close (close (record { buffer = buffer; closed = closed }))
              ≡ close (record { buffer = buffer; closed = closed }))
    by_state true buffer s = (refl, s refl, refl)
    by_state false buffer s = (refl, zeros-IsZero buffer, refl)
