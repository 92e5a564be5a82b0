-- ===== src/Interface.antt =====
-- The toggle buttons of the IP Network tab of a device, `updateNetworkInterfaceUI` in
-- management/stab/web/src/web/javascript/device-utils.js, with the table of states.
-- Elements are found there by their classes `id_network_interface_*`, `id_netblock_*`,
-- `id_dns_record_*` and `level_*`: those of a network interface hold its netblocks, those of a
-- netblock its DNS records. Here an interface holds its netblocks, and a netblock its records.
pub mod States
pub mod Group
pub mod Tree
pub mod Consistency
pub mod Effects
pub mod Tests
