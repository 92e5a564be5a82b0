-- ===== src/PowerPorts.antt =====
-- The list of power ports of a device: `showPowerPorts` and `updatePowerPort` of
-- management/stab/web/src/web/javascript/device-utils.js, with the global variables
-- `power_portboxname` and `request`.
pub mod Requests
pub mod Overlap
