-- ===== src/Lib.antt =====
-- A model of the browser code of stab, the web interface of JazzHands, and of its employee
-- directory, with proofs. The code is in management/stab/web/src/web/javascript, and the script of
-- the employee directory in management/directory; the pages that load it are written by the Perl
-- and PHP scripts beside them, which are not modelled, but for what ajax/manip_number.pl reads
-- from a form and the list of racks that device/device-ajax.pl of stab answers.
--
-- The parts share the document: each keeps its state in elements, classes and attributes, and some
-- in global variables. Every part has a record for the state it reads and writes, and a function
-- on it for each handler, guards and early returns included. An event is one call of a handler;
-- requests to the server are values that an answer, a parameter, comes to later, in any order.
--
-- Prelude: Boolean tests, lists and texts over native numbers, with show for decimal numbers,
-- split and join.
-- Interface: updateNetworkInterfaceUI of device-utils.js. States has the table of states and the
-- search for one that the parent allows, Group the elements of a level, Tree the calls that a
-- click propagates, Consistency and Effects the proofs. The search runs on fuel; three rounds are
-- enough.
-- FormTracking: form-tracking.js and hasPendingChanges of paging.js. Elements and Pass have
-- updateChangeTrackingStatus and the pass over a page, Submit preSubmitTrackedElements, Reset
-- resetForm. The browser's reset of a form is a parameter with its laws.
-- OtherEnd: the search for the other end of a port in ajaxsearch.js, lines 240 to 493. Actions has
-- the handlers, Popups and Retype the proofs. It calls updateChangeTrackingStatus and
-- showPhysical_ports.
-- PhysicalPorts: showPhysical_ports and cleanup_patchpanel_links of device-utils.js, with the
-- global variable request.
-- PowerPorts: showPowerPorts and updatePowerPort of device-utils.js, with the two global
-- variables.
-- Submission: verify_device_submission of device-utils.js (Names, Device) and
-- verify_rack_submission of racks.js (Rack).
-- Paging: buildPagingContainer and changePage of paging.js; limits are at least 1. Address has the
-- address that changePage goes to, for identifiers without characters that a pattern reads in
-- another way.
-- Rows: add_new_dns_row of dns-utils.js, add_dns_ref_record_row and purgerow of dns-common.js,
-- add_account of account-collection.js. Licenses has add_License of device-utils.js, LicenseIds
-- its proof. The loop for a free number runs on as much fuel as the page has identifiers, which is
-- proved to be enough.
-- Dns: QsToObj, build_dns_drop and change_dns_record of dns-utils.js; in Domains and Populated the
-- lists of domains of dns-common.js, with the timer that waits for them; in References the tables
-- of the records that refer to a record, with the links that remove a row and make it editable,
-- and in Editable what such a row sends.
-- SearchPopup: the popup that completes the name of a device in ajaxsearch.js, lines 81 to 222 and
-- 497 to 725. State has the fields with their popups, Close what is left in a field when its popup
-- closes, Events and Answers the handlers; Source, Keeps, Steps and Newest have the proof on where
-- a list comes from. A search keeps the popup it was sent for, in a field that the code does not
-- have, so that the theorem can name it.
-- Attest: attest.js. Page has the handlers of the buttons, the hints and the check of the form,
-- Consistency and Complete the proofs.
-- Tabs: ShowDevTab and forcedevtabload of device-utils.js. Spec has the abstract tabs, which know
-- the tab that is shown and those that are loaded; Refinement proves that the document implements
-- them, Loading that no tab stays empty. What the passes after an answer do to the rest of the
-- document is a parameter.
-- Collections: netblock-collection.js. Params parses the address, Members has the rows for
-- networks, Drop the list on the page where a collection is chosen, Restore the rows for child
-- collections.
-- Directory: drops.js of management/directory. Search has process_search, Usages the uses of
-- pictures (pic_manip, enforce_select_is_multivalue); Calm, Single and Once have the proofs.
-- Phones has the inputs of manip_phone and what ajax/manip_number.pl reads from them, Typed their
-- proof.
-- PatchPanels: the patch panels of device-utils.js. Popup has PatchPanelDrop and close_patchpanel,
-- Rows has AppendPatchPanelRow with the loop that renumbers rows, Numbered the proof that rows
-- stay numbered, Overlap what happens where two rows are added before an answer. An identifier is
-- its text and its number.
-- Folding: rows and branches that a click shows and hides. Arrow has swaparrows of stab-common.js,
-- Kids has showPhysPortKid_Groups and showCircuitKids of device-utils.js, KidSpec the states that
-- they implement; AppTree has app-utils.js, Balance, Broken and Grandchildren its proofs, and
-- Clicks the links of the tree.
-- Racks: site_to_rack of racks.js. Sites has the requests and the answers, Server the answer of
-- device/device-ajax.pl to a request for the racks of a site, Latest the proof, and Reader a
-- reader of addresses for the tests. How the server takes an address apart is a parameter, with
-- its law for names and values of letters, digits, `_`, `-` and `.`, and so is what the database
-- has.
-- Panels: enable_stab_tabs of stab-common.js (StabTabs) and the popups of table-manip.js (Hover),
-- where the position of the mouse is a parameter, and showhide of device-utils.js (ShowHide, with
-- its loop in PartWay and its proof in OneShown).
-- Netblock: submitAddNetblock and the links that expand and collapse branches of netblock.js.
--
-- Not modelled: positions and styles beyond what hides an element, the browser and its libraries
-- (javascript/external), the server but for the racks of a site and the phones of the directory,
-- and the rest of these scripts: the links of parents of device-utils.js, the page that is typed
-- into the box of a paging container, the link of a rack, the form for locations of the directory,
-- toggletable of table-manip.js, and the small scripts devicetype.js, tickets.js and
-- ajax-utils.js.
pub mod PatchPanels
pub mod Folding
pub mod Panels
pub mod Racks
pub mod Prelude
pub mod Interface
pub mod FormTracking
pub mod OtherEnd
pub mod Paging
pub mod Submission
pub mod Rows
pub mod PhysicalPorts
pub mod Dns
pub mod Netblock
pub mod PowerPorts
pub mod SearchPopup
pub mod Attest
pub mod Tabs
pub mod Collections
pub mod Directory
