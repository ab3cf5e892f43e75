-- ===== src/ModuleManager/Ports.antt =====
-- FIND_PARTITION_FROM_SAMPLING_PORT and FIND_PARTITION_FROM_QUEUING_PORT of
-- ModuleManager/ModuleInitialization.cc: the first partition with a port of a name, with the descriptor of
-- the port. `none` is the result -1.
use arinc653emulator.Prelude.{
  ℕ, suc, Bool, String, Option, none, some, List, [], ◌∷◌, if◌then◌else◌,
}
use arinc653emulator.ModuleManager.Defs.{
  QueuingPortDescriptor, SamplingPortDescriptor, ModulePartition,
}

module _ (eq : String → String → Bool) where
  unfoldable pub sampling_port_named :
      String → List SamplingPortDescriptor → Option SamplingPortDescriptor
  sampling_port_named name [] = none
  sampling_port_named name (d ∷ ds) =
      let rest = sampling_port_named name ds in if eq d.name name then some d else rest

  unfoldable pub find_partition_from_sampling_port :
      ℕ → String → List ModulePartition → Option (ℕ × SamplingPortDescriptor)
  unfolding sampling_port_named
  find_partition_from_sampling_port counter name [] = none
  find_partition_from_sampling_port counter name (p ∷ ps) =
      let rest = find_partition_from_sampling_port (suc counter) name ps in
      elim (sampling_port_named name p.sampling_ports) [ none ↦ rest | some d ↦ some (counter, d) ]

  unfoldable pub queuing_port_named :
      String → List QueuingPortDescriptor → Option QueuingPortDescriptor
  queuing_port_named name [] = none
  queuing_port_named name (d ∷ ds) =
      let rest = queuing_port_named name ds in if eq d.name name then some d else rest

  unfoldable pub find_partition_from_queuing_port :
      ℕ → String → List ModulePartition → Option (ℕ × QueuingPortDescriptor)
  unfolding queuing_port_named
  find_partition_from_queuing_port counter name [] = none
  find_partition_from_queuing_port counter name (p ∷ ps) =
      let rest = find_partition_from_queuing_port (suc counter) name ps in
      elim (queuing_port_named name p.queuing_ports) [ none ↦ rest | some d ↦ some (counter, d) ]
