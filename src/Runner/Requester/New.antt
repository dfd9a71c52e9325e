-- ===== src/Runner/Requester/New.antt =====
-- runner/requester.go, `NewRequester` and the options of `newClientConn`; runner/run.go, `Run`. What
-- protodesc, gRPC and the two providers answer is a parameter. `M` is a method's descriptor, which has an
-- input type.
use ghz.Prelude.{ℕ, Bool, not, List, [], ◌∷◌, ◌++◌, Option, none, some, if◌then◌else◌}
use ghz.Prelude.Int.{ℤ, pos, ltb_ℤ, leb_ℤ, ◌*ℤ◌, quot_ℤ, wrap_int64, max_int32}
use ghz.Prelude.Text.{Str, codes, is_empty}
use ghz.Runner.Config.{RunConfig, Tls, Result, ok, ◌>>=◌}
use ghz.Runner.Reason.{reason_cancel, reason_timeout}

-- Where a method's descriptor comes from. `reflect` is the temporary connection with the reflection client
-- over it; it is given the metadata to send.
pub record Descriptors (H M : Type 0) : Type 0 where
  pub from_proto : Str → Str → List Str → Result H M
  pub from_proto_set : Str → Str → Result H M
  pub from_proto_set_binary : Str → Str → Result H M
  pub reflect : Str → List (Str × Str) → Result H M

-- The caller's own provider, or the one made here.
pub data Provided (H P : Type 0) : Type 0 where
  by_caller : H → Provided H P
  by_default : P → Provided H P

pub record NewRequester (M H D P : Type 0) : Type 0 where
  pub mtd : M
  pub results_capacity : ℤ
  pub sampled_capacity : ℤ
  pub data_provider : Provided H D
  pub metadata_provider : Provided H P

-- The code's `min`.
abbrev pub min_ℤ : ℤ → ℤ → ℤ
min_ℤ a b = if ltb_ℤ a b then a else b

abbrev pub results_bound : ℤ → ℤ
results_bound max = if leb_ℤ max (pos 0) then pos 100_000_000 else max

abbrev pub provided : {H P : Type 0} → Option H → Result H P → Result H (Provided H P)
provided (some f) made = ok (by_caller f)
provided none made = made >>= λ p. ok (by_default p)

module _ {H F M : Type 0} (descriptors : Descriptors H M) where
  unfoldable pub method_of : RunConfig H F → Result H M
  method_of c =
      if not (is_empty c.proto)
      then descriptors.from_proto c.call c.proto c.import_paths
      else if not (is_empty c.protoset)
      then descriptors.from_proto_set c.call c.protoset
      else elim c.protoset_binary [
        | some bytes ↦ descriptors.from_proto_set_binary c.call bytes
        | none ↦ descriptors.reflect c.call c.rmd
      ]

  -- `data_of` and `metadata_of` are what newDataProvider and newMetadataProvider answer for the method.
  unfoldable pub new_requester :
      {D P : Type 0}
      → (M → Result H D)
      → (M → Result H P)
      → RunConfig H F
      → Result H (NewRequester M H D P)
  unfolding method_of
  new_requester data_of metadata_of c = method_of c >>= λ mtd.
      provided c.data_provider_func (data_of mtd) >>= λ data_provider.
      provided c.md_provider_func (metadata_of mtd) >>= λ metadata_provider. ok (record {
        mtd = mtd;
        results_capacity = min_ℤ (wrap_int64 (c.c *ℤ pos 1000)) (results_bound c.max_results);
        sampled_capacity =
            min_ℤ (wrap_int64 (c.c *ℤ pos 100)) (quot_ℤ (results_bound c.max_results) (pos 10));
        data_provider = data_provider;
        metadata_provider = metadata_provider;
      })

-- The options that `newClientConn` dials with.
pub data DialOption (H : Type 0) : Type 0 where
  insecure_credentials : DialOption H
  transport_credentials : Option (Tls H) → DialOption H
  authority : Str → DialOption H
  default_call_options : List H → DialOption H
  max_message_sizes : ℕ → DialOption H
  keepalive : ℤ → DialOption H
  stats_handler : DialOption H
  window_size : ℤ → DialOption H
  conn_window_size : ℤ → DialOption H
  service_config : Str → DialOption H

abbrev pub option_if : {H : Type 0} → Bool → DialOption H → List (DialOption H)
option_if b o = if b then o ∷ [] else []

abbrev pub call_defaults : {H : Type 0} → List H → DialOption H
call_defaults [] = max_message_sizes max_int32
call_defaults (o ∷ os) = default_call_options (o ∷ os)

unfoldable pub client_conn_options : {H F : Type 0} → Bool → RunConfig H F → List (DialOption H)
client_conn_options with_stats_handler c =
    (if c.insecure then insecure_credentials else transport_credentials c.creds)
      ∷ option_if (not (is_empty c.authority)) (DialOption.authority c.authority)
    ++ (call_defaults c.default_call_options
          ∷ option_if (ltb_ℤ (pos 0) c.keepalive_time) (DialOption.keepalive c.keepalive_time)
        ++ (option_if with_stats_handler stats_handler
            ++ (option_if (ltb_ℤ (pos 0) c.initial_window_size) (window_size c.initial_window_size)
                ++ (option_if (ltb_ℤ (pos 0) c.initial_conn_window_size)
                      (conn_window_size c.initial_conn_window_size)
                    ++ option_if (not (is_empty c.lb_strategy)) (
                        service_config
                          (codes "{\"loadBalancingPolicy\":\"" ++ c.lb_strategy ++ codes "\"}"))))))

-- The goroutines of `Run` that will call `Stop`: on an interrupt, and after `z`.
pub record Stopper : Type 0 where
  pub after : Option ℤ
  pub reason : Str

unfoldable pub stoppers : {H F : Type 0} → RunConfig H F → List Stopper
stoppers c =
    record { after = none; reason = reason_cancel }
    ∷ (if ltb_ℤ (pos 0) c.z then record { after = some c.z; reason = reason_timeout } ∷ [] else [])

-- `Run`, up to the requester's: the requester, and who may stop it.
unfoldable pub run_with :
    {H F R : Type 0}
    → Result H (RunConfig H F)
    → (RunConfig H F → Result H R)
    → Result H (R × List Stopper)
unfolding stoppers
run_with config requester = config >>= λ c. requester c >>= λ reqr. ok (reqr, stoppers c)
